-- ===== src/Web/EventEditor/Examples.antt =====
-- Tests of the page that edits an event.

use unity_runn.Prelude.{
  ℕ, ◌≤◌, none, some, List, [], ◌∷◌, true, false, ltb, str_eq, if◌then◌else◌, ◌≡◌, refl,
}
use unity_runn.Exec.{Result, ok, err, plain}
use unity_runn.Web.Amounts.{Numbers, parse_event_coordinates}
use unity_runn.Web.EventEditor.{
  EventStatus, draft, published, registration_open, registration_closed, completed, cancelled,
  archived, EventRecord, EditForm, EditPage, Browser, DetailsPayload, or_empty, form_of, sent_time,
  end_event, start_status, end_status, prepare_details,
}
use unity_runn.Web.EventEditor.Lifecycle.{Follows-length}
use unity_runn.Web.EventEditor.Statuses.{Press, press, press_all}
use unity_runn.Web.EventEditor.Details.{prepare_details-loaded}

abbrev naturals : Numbers ℕ
naturals = record {
  number = λ t. 0;
  parse_float = λ t. 0;
  is_finite = λ n. true;
  less = ltb;
  natural = λ n. n;
  negative = λ n. 0;
  times_hundred = λ n. n;
  round = λ n. n;
}

-- A browser in a zone that is seven hours ahead of UTC
abbrev phnom_penh : Browser ℕ
phnom_penh = record {
  numbers = naturals;
  trim = λ t. t;
  show_number = λ n. "";
  to_iso = λ t.
      if str_eq t "2026-09-01T10:00"
      then ok "2026-09-01T03:00:00.000Z"
      else err (plain "Invalid time value");
}

abbrev night_run : EventRecord ℕ
night_run = record {
  id = "e1";
  name = "Night run";
  slug = "night-run";
  description = none;
  cover_image = some "poster.png";
  event_date = some "2026-10-03T00:00:00Z";
  start_time = none;
  location = some "Riverside";
  latitude = none;
  longitude = none;
  registration_open_at = some "2026-09-01T10:00:00Z";
  registration_close_at = none;
  status = draft;
}

abbrev published_run : EventRecord ℕ
published_run = record night_run { status = published }

abbrev blank_form : EditForm
blank_form = record {
  name = "";
  slug = "";
  description = "";
  cover_image = "";
  event_date = "";
  start_time = "06:00";
  location = "";
  latitude = "";
  longitude = "";
  registration_open_at = "";
  registration_close_at = "";
}

abbrev page : EditPage ℕ
page = record {
  event = some night_run;
  loading = false;
  saving = false;
  poster_uploading = false;
  poster_error = none;
  cover_image_ref = "poster.png";
  status_updating = false;
  error = none;
  success_message = none;
  form_data = blank_form;
}

abbrev whole_life : List EventStatus
whole_life = published ∷ registration_open ∷ registration_closed ∷ completed ∷ archived ∷ []

Follows-length_example : 5 ≤ 5
Follows-length_example = Follows-length draft whole_life (refl, (refl, (refl, (refl, (refl, tt)))))

abbrev publishing : Press ℕ
publishing = record { next = published; confirmed = false; answer = ok published_run }

-- A cancellation that is not confirmed
abbrev unconfirmed : Press ℕ
unconfirmed = record { next = cancelled; confirmed = false; answer = err (plain "offline") }

status-after :
    (press_all (unconfirmed ∷ publishing ∷ publishing ∷ []) page).event ≡ some published_run
unfolding press_all press start_status end_status
status-after = refl

status_of : Result (EventRecord ℕ) → EventStatus
status_of (ok u) = u.status
status_of (err e) = published

abbrev payload_sent : DetailsPayload ℕ
payload_sent = record {
  name = "Night run";
  slug = "night-run";
  description = "";
  cover_image = "poster.png";
  event_date = "2026-10-03";
  start_time = "06:00";
  location = "Riverside";
  coordinates = none;
  clear_coordinates = true;
  registration_open_at = some "2026-09-01T03:00:00.000Z";
  registration_close_at = none;
}

prepare_details-loaded_example :
    ((payload_sent.name ≡ night_run.name) × (payload_sent.slug ≡ night_run.slug))
    × ((payload_sent.description ≡ or_empty night_run.description)
        × (payload_sent.location ≡ or_empty night_run.location))
    × (payload_sent.registration_open_at ≡ some "2026-09-01T03:00:00.000Z")
unfolding prepare_details end_event form_of sent_time parse_event_coordinates
prepare_details-loaded_example =
    prepare_details-loaded phnom_penh page night_run payload_sent "2026-09-01T10:00:00Z"
      "2026-09-01T03:00:00.000Z" refl refl refl refl
