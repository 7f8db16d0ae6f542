-- ===== src/Mobile/Session/Examples.antt =====
-- The theorems of the session at concrete inputs.
use unity_runn.Prelude.{◌+◌, ◌*◌, ◌≤◌, ◌≡◌, refl, none, some, [], ◌∷◌, ◌⊎◌}
use unity_runn.Exec.{ok, err}
use unity_runn.Mobile.Api.{Body, SessionResponse, session, absent, other, refresh_token}
use unity_runn.Mobile.Session.State.{sent, cache_cleared}
use unity_runn.Mobile.Session.Identity.{type_error}
use unity_runn.Mobile.Session.Operations.{login, establish, rotate, posting, refresh_path}
use unity_runn.Mobile.Session.Request.{prepare, request}
use unity_runn.Mobile.Session.Request.Stale.{request-keeps_identity}
use unity_runn.Mobile.Session.Alone.{alone}
use unity_runn.Mobile.Session.Alone.Tests.{
  start, serving, rotating, offline, getting, signed_in, rotates_once,
}
use unity_runn.Mobile.Session.Alone.Endings.{rotate-keeps_session}
use unity_runn.Mobile.Session.Alone.Answers.{Kept, GivenUp, establish-ends, establish-absent}
use unity_runn.Mobile.Session.Alone.Invariant.{IsValid}
use unity_runn.Mobile.Session.Alone.Runs.{sign_in, sign_out, asking, run, run-IsValid}
use unity_runn.Mobile.Session.Alone.Calls.{calls, same, request-calls}
use unity_runn.Mobile.Session.Queue.{operation, refresh, go, Queue, idle}
use unity_runn.Mobile.Session.Queue
use unity_runn.Mobile.Session.Queue.SingleFlight.{IsSingle, run-IsSingle}

request-keeps_identity_example :
    (request (alone rotating) "/api/v1/me/" getting signed_in).1.identity_version
    ≡ (prepare (alone rotating) signed_in).1.identity_version
request-keeps_identity_example =
    request-keeps_identity (alone rotating) "/api/v1/me/" getting signed_in (other "ok")
      rotates_once.0

rotate-keeps_session_example :
    rotate (alone (serving (λ path o t. err offline))) (start (some "refresh-1")) ≡ (
      err offline,
      record (start (some "refresh-1")) {
        trace = sent refresh_path (posting (refresh_token (some "refresh-1"))) ∷ [];
      },
    )
rotate-keeps_session_example =
    rotate-keeps_session (serving (λ path o t. err offline)) (start (some "refresh-1")) "refresh-1"
      offline refl refl refl refl refl

abbrev answer : SessionResponse
answer = record { access_token = some "access-1"; refresh_token = some "refresh-1"; user = none }

establish-ends_example :
    let b = serving (λ path o t. ok (session answer)) in
    let w' = record (start none) {
      identity_version = 1;
      trace = cache_cleared ∷ sent "/login" (posting Body.undefined) ∷ [];
    } in
    let r = establish (alone b) "/login" Body.undefined (start none) in
    Kept w' answer r.0 r.1 ⊎ GivenUp w' answer r.0 r.1
establish-ends_example =
    establish-ends (serving (λ path o t. ok (session answer))) (start none) "/login" Body.undefined
      (session answer) answer refl refl

establish-absent_example :
    establish (alone (serving (λ path o t. ok absent))) "/login" Body.undefined (start none) ≡ (
      err type_error,
      record (start none) {
        identity_version = 1;
        trace = cache_cleared ∷ sent "/login" (posting Body.undefined) ∷ [];
      },
    )
establish-absent_example =
    establish-absent (serving (λ path o t. ok absent)) (start none) "/login" Body.undefined refl

run-IsValid_example : IsValid (
    run rotating
      (sign_in login "a" "b" none ∷ asking "/api/v1/me/" getting ∷ sign_out ∷ [])
      (start none))
run-IsValid_example =
    run-IsValid rotating (sign_in login "a" "b" none ∷ asking "/api/v1/me/" getting ∷ sign_out ∷ [])
      (start none) (record { fits = (refl, refl); refresh_flight = refl; restore_flight = refl })

request-calls_example :
    calls "/api/v1/me/" (request (alone rotating) "/api/v1/me/" getting (start none)).1.trace
    ≤ 3 * same refresh_path "/api/v1/me/" + 2 * same "/api/v1/me/" "/api/v1/me/" + 0
request-calls_example = request-calls rotating "/api/v1/me/" "/api/v1/me/" getting (start none) refl

abbrev busy : Queue
busy = record idle {
  waiting = operation 1 ∷ operation 2 ∷ [];
  queued = operation 1 ∷ operation 2 ∷ [];
}

run-IsSingle_example : IsSingle (Queue.run (refresh 1 ∷ refresh 2 ∷ go ∷ []) idle)
run-IsSingle_example = run-IsSingle (refresh 1 ∷ refresh 2 ∷ go ∷ []) idle refl
