-- ===== src/Web/RunnerProfile/Examples.antt =====
-- Tests of the details of a runner.
use unity_runn.Prelude.{none, some, List, [], ◌∷◌, true, false, ◌≡◌, refl}
use unity_runn.Exec.{plain}
use unity_runn.Web.Alerts.{no_alerts, notify, last_three}
use unity_runn.Web.RunnerProfile.{
  RunnerProfile, ProfilePage, TelegramStatus, tickets_key, reminders_key, updates_key, empty_form,
  default_telegram_preferences, form_from_profile, readiness, ready_count, start_preference,
  end_preference,
}
use unity_runn.Web.RunnerProfile.Choices.{
  Delivery, Turn, switched, accepted, refused, turn, run, shown, IsInStep, run-IsInStep,
}

abbrev connected_status : TelegramStatus
connected_status = record {
  available = true;
  connected = true;
  bot_name = none;
  preferences = default_telegram_preferences;
}

abbrev profile_page : ProfilePage
profile_page = record {
  user = none;
  form = record empty_form { full_name = "Ana" };
  saved_form = empty_form;
  loading = false;
  saving = false;
  error = none;
  telegram = some connected_status;
  telegram_busy = false;
  telegram_test_busy = false;
  telegram_preference_busy = none;
  telegram_link_expires_at = none;
  telegram_deliveries = [];
  opened = [];
  replaced = [];
  alerts = no_alerts;
}

abbrev world : Delivery
world = record { page = profile_page; waiting = none; kept = default_telegram_preferences }

abbrev turns : List Turn
turns =
    switched tickets_key
    ∷ switched reminders_key
    ∷ refused (plain "offline")
    ∷ switched updates_key
    ∷ accepted
    ∷ []

-- The second switch is pressed while the first change waits.
choices-shown :
    shown (run turns world).page.telegram
    ≡ some (record { tickets = true; reminders = true; event_updates = false })
unfolding run turn start_preference end_preference notify last_three
choices-shown = refl

run-IsInStep_example : IsInStep (run turns world)
run-IsInStep_example = run-IsInStep turns world (refl, refl)

abbrev ana_profile : RunnerProfile
ana_profile = record {
  full_name = "Ana";
  phone = none;
  date_of_birth = some "1990-02-03T00:00:00Z";
  gender = none;
  emergency_contact_name = none;
  emergency_contact_phone = none;
  tshirt_size = some "M";
}

ana-ready : ready_count (λ t. t) (form_from_profile (some ana_profile)) ≡ 3
unfolding readiness form_from_profile
ana-ready = refl
