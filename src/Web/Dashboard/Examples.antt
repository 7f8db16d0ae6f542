-- ===== src/Web/Dashboard/Examples.antt =====
-- Tests of the races of a runner.
use mathlib.Core.List.{Perm}
use unity_runn.Prelude.{
  ℕ, String, none, some, List, [], ◌∷◌, false, str_eq, ltb, if◌then◌else◌, ◌≡◌, refl,
}
use unity_runn.Prelude.Sorting.{sort_by}
use unity_runn.Exec.{err, plain}
use unity_runn.Web.Alerts.{no_alerts}
use unity_runn.Web.Dashboard.{
  Race, Entry, Dashboard, Days, dated_entries, featured_registration, others, toggle_qr, end_qr,
}
use unity_runn.Web.Dashboard.Entries.{shown, others-Perm}

abbrev day_of : String → ℕ
day_of date = if str_eq date "2026-10-03" then 3 else if str_eq date "2026-09-05" then 1 else 2

abbrev days : Days
days = record {
  later = λ a b. ltb (day_of b) (day_of a);
  since_today = λ date. ltb 1 (day_of date);
}

abbrev hill_race : Race
hill_race = record { id = "e1"; slug = "hill"; name = "Hill"; event_date = "2026-10-03" }

abbrev dawn_race : Race
dawn_race = record { id = "e2"; slug = "dawn"; name = "Dawn"; event_date = "2026-09-05" }

abbrev races : List Race
races = hill_race ∷ dawn_race ∷ []

abbrev unpaid : Entry
unpaid = record {
  id = "r1";
  registration_number = "1";
  event_id = "e1";
  status = "PENDING";
  created_at = "";
  checked_in_at = none;
}

abbrev over : Entry
over = record unpaid { id = "r2"; event_id = "e2"; status = "CONFIRMED" }

abbrev coming : Entry
coming = record unpaid { id = "r3"; status = "CONFIRMED" }

-- A pending entry of a race that is not in the list of events
abbrev unknown : Entry
unknown = record unpaid { id = "r4"; event_id = "e9" }

featured-unpaid : featured_registration days races (over ∷ coming ∷ unpaid ∷ []) ≡ some unpaid
unfolding featured_registration dated_entries sort_by
featured-unpaid = refl

featured-coming : featured_registration days races (over ∷ coming ∷ unknown ∷ []) ≡ some coming
unfolding featured_registration dated_entries sort_by
featured-coming = refl

others-sorted : others days races (over ∷ coming ∷ unknown ∷ []) ≡ unknown ∷ over ∷ []
unfolding others featured_registration dated_entries sort_by
others-sorted = refl

others-Perm_example :
    Perm
      (shown
        (featured_registration days races (over ∷ coming ∷ []))
        (others days races (over ∷ coming ∷ [])))
      (over ∷ coming ∷ [])
others-Perm_example = others-Perm days races (over ∷ coming ∷ []) (refl, (refl, tt))

abbrev dashboard : Dashboard
dashboard = record {
  user = some "RUNNER";
  registrations = unpaid ∷ over ∷ [];
  events = races;
  loading = false;
  error = none;
  open_ticket_id = none;
  qr_by_reg_id = [];
  qr_loading_id = none;
  ticket_downloading_id = none;
  payment = none;
  payment_event_name = "Your race entry";
  payment_restart_href = none;
  payment_loading_id = none;
  cancel_confirm_id = some "r1";
  cancelling_id = none;
  pushed = [];
  alerts = no_alerts;
}

-- The code of one ticket that fails closes another ticket that was opened meanwhile.
closed-ticket :
    (end_qr over (err (plain "")) (toggle_qr coming (toggle_qr over dashboard).1).1).open_ticket_id
    ≡ none
unfolding end_qr toggle_qr
closed-ticket = refl
