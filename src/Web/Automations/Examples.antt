-- ===== src/Web/Automations/Examples.antt =====
-- Tests of the editor of messages to the runners.
use unity_runn.Prelude.{none, some, [], ◌∷◌, true, false, ◌≡◌, refl, map}
use unity_runn.Exec.{ok}
use unity_runn.Web.Alerts.{no_alerts, notify, last_three}
use unity_runn.Web.Automations.{
  EventAutomation, Editor, Clock, draft_problem, validate_draft, start_persist, save_draft,
  review_schedule, end_cancel,
}

abbrev clock : Clock
clock = record {
  trim = λ t. t;
  is_past = λ t. true;
  iso = λ t. t;
  to_local_input = λ t. t;
  retry_at = "2026-12-01T06:05";
}

abbrev bibs : EventAutomation
bibs = record { id = "m1"; name = "Bibs"; message = "Hall B"; status = "SCHEDULED"; send_at = none }

abbrev composing : Editor
composing = record {
  items = [];
  loading = false;
  busy = false;
  cancelling = none;
  cancel_candidate = none;
  editing = none;
  preview = none;
  draft = record { name = "Bibs"; message = "Hall B"; send_at = "2020-01-01T06:00" };
  local_mutation = 0;
  alerts = no_alerts;
}

sent-draft :
    (save_draft clock composing).0
    ≡ some (record { name = "Bibs"; message = "Hall B"; send_at = none; target = none })
unfolding save_draft validate_draft draft_problem start_persist
sent-draft = refl

-- A time that has passed is not reviewed.
review-past : (review_schedule clock composing).preview ≡ none
unfolding review_schedule validate_draft draft_problem notify last_three
review-past = refl

cancelled-item :
    map
      (λ (a : EventAutomation). a.status)
      (end_cancel "m1" (ok tt) (record composing { items = bibs ∷ [] })).items
    ≡ "CANCELLED" ∷ []
unfolding end_cancel notify last_three
cancelled-item = refl
