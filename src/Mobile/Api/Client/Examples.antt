-- ===== src/Mobile/Api/Client/Examples.antt =====
-- The theorems of the transport at concrete inputs.
use unity_runn.Prelude.{String, ◌≡◌, refl, none, some, true, false, ◌↔◌}
use text.Mathlib.Text.{starts_with}
use unity_runn.Exec.{ApiError, Failure, api, ok, err}
use unity_runn.Mobile.Api.{RequestOptions, other, undefined}
use unity_runn.Mobile.Api.Client.{
  Exchange, Response, responded, rejected, Fetcher, Held, transport, receive, settle, translate,
  perform,
}
use unity_runn.Mobile.Api.Client.Answers.{Delivers, transport-Delivers}

abbrev options : RequestOptions
options = record { method = none; body = undefined; token = some "t" }

abbrev untouched : Held
untouched = record { timers = 0; listeners = 0 }

abbrev fetching : Exchange → Fetcher
fetching x = record { exchange = λ r. x; decimal = λ n. "404" }

abbrev answering : Response → Fetcher
answering r = fetching (record { settled = responded r; cancelled = false; timed_out = false })

abbrev found : Response
found = record {
  status = 200;
  document = some (record { error = none; content = some (other "ok") });
}

abbrev missing : Response
missing = record { status = 404; document = none }

abbrev me : String
me = "/api/v1/me/"

abbrev not_found : ApiError
not_found = record {
  message = "The service returned 404. Please try again.";
  status = 404;
  code = "http_error";
}

is_missing : (transport (answering missing) "o" me options none untouched).0 ≡ err (api not_found)
unfolding transport perform settle receive translate
is_missing = refl

transport-Delivers_example :
    ((transport (answering found) "o" me options none untouched).0 ≡ ok (other "ok")) ↔ (
      (starts_with me "/api/v1/" ≡ true)
      × ((r : Response) × ((responded found) ≡ responded r) × Delivers r (other "ok")))
transport-Delivers_example =
    transport-Delivers (answering found) "o" me options none untouched (other "ok")

responded-settles : (e : Failure) → responded missing ≡ rejected e → ⊥
responded-settles e h = cc
