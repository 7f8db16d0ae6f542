-- ===== src/Mobile/Api/Client.antt =====
-- mobile/services/api/client.ts: `createTransport`. What `fetch` does is a parameter: how it settled, and
-- whether the caller or the timer had aborted the call by then.
pub mod Answers
pub mod Failures
mod Examples
use unity_runn.Prelude.{
  ℕ, ◌+◌, ◌-◌, String, Option, none, some, List, [], ◌∷◌, ◌++◌, Bool, true, false, not, ◌&&◌, ◌||◌,
  leb, ◌==◌, if◌then◌else◌, truthy, or_else, is_some,
}
use Prim.Native.String
use text.Mathlib.Text.{starts_with}
use unity_runn.Exec.{
  ApiError, Failure, api, Result, ok, err, Exec, pure, raise, lift, modify, catching, finally,
  branch, ◌>>◌,
}
use unity_runn.Mobile.Api.{Method, get, Payload, absent, Body, undefined, RequestOptions}

-- `payload.error`, where each field may be missing
pub record ErrorBody : Type 0 where
  pub message : Option String
  pub code : Option String

-- An answer's JSON value: its `error`, and its own property `data` if it has one.
pub record Document : Type 0 where
  pub error : Option ErrorBody
  pub content : Option Payload

-- `none` where the body is no JSON, or a value that is false
pub record Response : Type 0 where
  pub status : ℕ
  pub document : Option Document

pub data Settled : Type 0 where
  responded : Response → Settled
  rejected : Failure → Settled

pub record Exchange : Type 0 where
  pub settled : Settled
  pub cancelled : Bool
  pub timed_out : Bool

-- What `fetch` is called with
pub record HttpRequest : Type 0 where
  pub url : String
  pub method : Method
  pub headers : List (String × String)
  pub body : Body
  pub aborted : Bool

pub record Fetcher : Type 0 where
  pub exchange : HttpRequest → Exchange
  -- a number as text
  pub decimal : ℕ → String

-- The timers and the listeners on the caller's signal that a call holds.
pub record Held : Type 0 where
  pub timers : ℕ
  pub listeners : ℕ

-- `options.signal`: none, or whether it was aborted before the call
abbrev pub Signal : Type 0
Signal = Option Bool

abbrev pub configuration : Failure
configuration = api (record { message = "Invalid API path."; status = 0; code = "configuration" })

abbrev pub cancelled_error : Failure
cancelled_error = api (record { message = "Request cancelled."; status = 0; code = "cancelled" })

abbrev pub timeout_error : Failure
timeout_error = api (record {
  message = "The connection took too long. Please try again.";
  status = 0;
  code = "timeout";
})

abbrev pub network_error : Failure
network_error = api (record {
  message = "Could not connect. Check your connection and try again.";
  status = 0;
  code = "network_error";
})

abbrev has_body : Body → Bool
has_body undefined = false
has_body _ = true

abbrev header_if : Bool → String → String → List (String × String)
header_if b name value = if b then (name, value) ∷ [] else []

abbrev pub bearer : Option String → List (String × String)
bearer none = []
bearer (some t) = header_if (truthy t) "Authorization" (String.◌++◌ "Bearer " t)

unfoldable pub headers : RequestOptions → List (String × String)
headers o =
    ("Accept", "application/json")
    ∷ (header_if (has_body o.body) "Content-Type" "application/json" ++ bearer o.token)

abbrev pub is_ok : ℕ → Bool
is_ok status = leb 200 status && leb status 299

abbrev error_of : Option Document → Option ErrorBody
error_of none = none
error_of (some d) = d.error

abbrev message_of : Option ErrorBody → Option String
message_of none = none
message_of (some e) = e.message

abbrev code_of : Option ErrorBody → Option String
code_of none = none
code_of (some e) = e.code

abbrev content_of : Option Document → Option Payload
content_of none = none
content_of (some d) = d.content

module _ (f : Fetcher) where
  abbrev pub http_error : Response → Failure
  http_error r = api (record {
    message = or_else (message_of (error_of r.document)) (
        String.◌++◌ "The service returned "
          (String.◌++◌ (f.decimal r.status) ". Please try again."));
    status = r.status;
    code = or_else (code_of (error_of r.document)) "http_error";
  })

  abbrev pub unexpected : ℕ → Failure
  unexpected status = api (record {
    message = "The service returned an unexpected response.";
    status = status;
    code = "invalid_response";
  })

  unfoldable pub receive : Response → Result Payload
  receive r =
      if r.status == 204
      then ok absent
      else if not (is_ok r.status)
      then err (http_error r)
      else elim (content_of r.document) [ none ↦ err (unexpected r.status) | some p ↦ ok p ]

  unfoldable pub settle : Settled → Result Payload
  settle (responded r) = receive r
  settle (rejected e) = err e

  -- The `catch` of the transport
  unfoldable pub translate : Exchange → Failure → Failure
  translate x (api e) = api e
  translate x _ =
      if x.cancelled then cancelled_error else if x.timed_out then timeout_error else network_error

  abbrev listening : Signal → ℕ
  listening none = 0
  listening (some b) = 1

  unfoldable pub http_request : String → String → RequestOptions → Signal → HttpRequest
  http_request origin path o signal = record {
    url = String.◌++◌ origin path;
    method = or_else o.method get;
    headers = headers o;
    body = o.body;
    aborted = or_else signal false;
  }

  unfoldable pub perform : String → String → RequestOptions → Signal → Exec Held Payload
  perform origin path o signal =
      let x = f.exchange (http_request origin path o signal) in
      catching (lift (settle x.settled)) (λ e. raise (translate x e))

  unfoldable pub transport : String → String → RequestOptions → Signal → Exec Held Payload
  transport origin path o signal =
      branch (not (starts_with path "/api/v1/")) (raise configuration) (do
        modify (λ h. record { timers = h.timers + 1; listeners = h.listeners + listening signal })
        finally (perform origin path o signal)
            (λ h. record { timers = h.timers - 1; listeners = h.listeners - listening signal }))
