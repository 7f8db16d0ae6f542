-- ===== src/Mobile/Register/Examples.antt =====
-- The theorems of the registration at concrete inputs.
use unity_runn.Prelude.{ℕ, ◌≡◌, refl, none, some, true, false, ◌==◌, if◌then◌else◌}
use unity_runn.Exec.{api, Result, ok, err}
use unity_runn.Mobile.Register.{Values, Screen, Entered, payload, submit}
use unity_runn.Mobile.Register.Attempts.{settled, attempted, submit-settles}

abbrev values : Values
values = record {
  full_name = "Dara";
  email = "dara@example.com";
  phone = "012";
  date_of_birth = "2000-01-01";
  emergency_contact_name = "Sok";
  emergency_contact_phone = "011";
}

abbrev screen : Screen
screen = record {
  category = "c1";
  gender = "OTHER";
  tshirt_size = "M";
  submit_error = "";
  retrying = false;
  payment = none;
  sent = none;
  attempts = 0;
  waited = 0;
  opened_wallet = false;
}

-- Busy once, then an entry without a payment
abbrev service : ℕ → Result Entered
service n =
    if n == 1
    then err (api (record { message = "busy"; status = 429; code = "busy" }))
    else ok (record { payment = none })

submit-settles_example :
    submit service true values screen
    ≡ settled
        (ok (record { payment = none }))
        (attempted 2 (record screen { submit_error = ""; sent = some (payload values screen) }))
submit-settles_example = submit-settles service values screen refl
