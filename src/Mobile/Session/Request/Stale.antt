-- ===== src/Mobile/Session/Request/Stale.antt =====
-- What `request` guarantees whatever the other tasks do while it waits: nothing is assumed of the
-- environment.
use unity_runn.Prelude.{ℕ, String, ◌≡◌, arith}
use unity_runn.Exec.{Failure, ok}
use unity_runn.Mobile.Api.{Payload, RequestOptions}
use unity_runn.Mobile.Session.State.{World, Env}
use unity_runn.Mobile.Session.Identity.{awaiting}
use unity_runn.Mobile.Session.Operations.{refresh}
use unity_runn.Mobile.Session.Request.{
  send_checked, give_up, resend, retry, refused, attempt, prepare, request,
}

module _ (env : Env) (path : String) (options : RequestOptions) where
  send_checked-ok :
      (version : ℕ) (w : World) (v : Payload)
      → (send_checked env path options version w).0 ≡ ok v
      → (send_checked env path options version w).1.identity_version ≡ version
  unfolding send_checked
  send_checked-ok version w v h = ground arith

  give_up-ne-ok :
      (version : ℕ) (e : Failure) (w : World) (v : Payload)
      → ¬ ((give_up env path options version e w).0 ≡ ok v)
  unfolding give_up
  give_up-ne-ok version e w v h = ground arith

  resend-ok :
      (version : ℕ) (w : World) (v : Payload)
      → (resend env path options version w).0 ≡ ok v
      → (resend env path options version w).1.identity_version ≡ version
  unfolding resend
  resend-ok version w v h = grind (arith, send_checked-ok, give_up-ne-ok)

  retry-ok :
      (version : ℕ) (initial : String) (w : World) (v : Payload)
      → (retry env path options version initial w).0 ≡ ok v
      → (retry env path options version initial w).1.identity_version ≡ version
  unfolding retry
  retry-ok version initial w v h =
      ground (arith, resend-ok version w v, resend-ok version (awaiting env (refresh env) w).1 v)

  attempt-ok :
      (w : World) (v : Payload)
      → (attempt env path options w).0 ≡ ok v
      → (attempt env path options w).1.identity_version ≡ w.identity_version
  unfolding attempt refused
  attempt-ok w v h = grind (arith, send_checked-ok, retry-ok)

-- A value that `request` returns is an answer to the identity that was signed in when the session was
-- ready: the identity has not changed since, whatever other tasks did while the request waited.
pub request-keeps_identity :
    (env : Env) (path : String) (options : RequestOptions) (w : World) (v : Payload)
    → (request env path options w).0 ≡ ok v
    → (request env path options w).1.identity_version ≡ (prepare env w).1.identity_version
unfolding request
request-keeps_identity env path options w v h = grind (arith, attempt-ok)
