-- ===== src/Mobile/Session/Operations.antt =====
-- The operations that the session serialises: signing in, rotating the refresh token, signing out.
use unity_runn.Prelude.{String, ◌+◌, Option, none, some, Bool, true, false, if◌then◌else◌}
use unity_runn.Exec.{
  Failure, api, unsupported, plain, foreign, Result, ok, err, pure, raise, lift, modify, catching,
  settle, finally, branch, when, given, ◌>>=◌, ◌>>◌,
}
use unity_runn.Mobile.Api.{Method, Payload, Body, refresh_token, credentials, code, RequestOptions}
use unity_runn.Mobile.Session.State.{Status, guest, unavailable, M, Env}
use unity_runn.Mobile.Session.Identity.{
  signed_out, logout_unconfirmed, is_unauthorized, emit, clear_cache, present, fields, awaiting,
  send, accept, forget,
}

pub data Kind : Type 0 where
  login register : Kind

abbrev pub auth_path : Kind → String
auth_path login = "/api/v1/auth/mobile/login"
auth_path register = "/api/v1/auth/mobile/register"

abbrev pub logout_path : String
logout_path = "/api/v1/auth/mobile/logout"

abbrev pub refresh_path : String
refresh_path = "/api/v1/auth/mobile/refresh"

abbrev pub google_path : String
google_path = "/api/v1/auth/mobile/google/callback"

-- `{ method: "POST", body }`
abbrev pub posting : Body → RequestOptions
posting body = record { method = some Method.post; body = body; token = none }

abbrev is_guest : Status → Bool
is_guest guest = true
is_guest _ = false

-- `failure` is tested by its truth value
abbrev pub failed : Result (Unit {0}) → Bool
failed (ok _) = false
failed (err (foreign b)) = b
failed (err _) = true

abbrev restore_message : Failure → String
restore_message (api e) = e.message
restore_message (unsupported m) = m
restore_message (plain m) = m
restore_message (foreign _) = "Could not restore your session."

module _ (env : Env) where
  abbrev pub serialize : {A : Type 0} → M A → M A
  serialize operation w = operation (env.turn w)

  -- The handler of `establish` and of `rotate`: what could not be kept is revoked.
  unfoldable pub revoke : Payload → Failure → M (Unit {0})
  revoke result error = do
    r ← lift (fields result)
    settle (send env logout_path (posting (refresh_token r.refresh_token)))
    awaiting env (forget env)
    raise error

  unfoldable pub keep_or_revoke : Payload → M (Unit {0})
  keep_or_revoke result = catching (awaiting env (accept env result)) (revoke result)

  unfoldable pub establish : String → Body → M (Unit {0})
  establish path body = do
    result ← send env path (posting body)
    modify (λ w. record w { identity_version = w.identity_version + 1 })
    modify clear_cache
    keep_or_revoke result

  unfoldable pub authenticate : Kind → String → String → Option String → M (Unit {0})
  authenticate kind email password full_name =
      serialize (establish (auth_path kind) (credentials email password full_name))

  unfoldable pub login_with_google : String → M (Unit {0})
  login_with_google c = serialize (establish google_path (code c))

  unfoldable pub rotate_token : String → M (Unit {0})
  rotate_token token = do
    result ←
        catching (send env refresh_path (posting (refresh_token (some token))))
          (λ error. do when (is_unauthorized error) (awaiting env (forget env)); raise error)
    keep_or_revoke result

  unfoldable pub rotate : M (Unit {0})
  rotate = do
    token ← env.storage_get
    given (present token) (do awaiting env (forget env); raise signed_out) rotate_token

  unfoldable pub refresh : M (Unit {0})
  refresh w =
      if w.refresh_flight
      then env.join_refresh w
      else finally (serialize rotate) (λ u. record u { refresh_flight = false })
          (record w { refresh_flight = true })

  unfoldable pub restore_failed : Failure → M (Unit {0})
  restore_failed error w = if is_guest w.state.status then (ok tt, w) else (
    ok tt,
    emit (record { status = unavailable; user = none; message = some (restore_message error) }) w,
  )

  unfoldable pub restore : M (Unit {0})
  restore w =
      if w.restore_flight
      then env.join_restore w
      else finally (catching (awaiting env refresh) restore_failed)
          (λ u. record u { restore_flight = false }) (record w { restore_flight = true })

  -- The call of the service in `logout`, if there is a token to revoke.
  unfoldable pub revoke_stored : M (Unit {0})
  revoke_stored = do
    token ← env.storage_get
    given (present token) (pure tt)
        (λ t. do send env logout_path (posting (refresh_token (some t))); pure tt)

  unfoldable pub logout_now : M (Unit {0})
  logout_now = do
    failure ← settle revoke_stored
    awaiting env (forget env)
    branch (failed failure) (raise logout_unconfirmed) (pure tt)

  unfoldable pub logout : M (Unit {0})
  logout = serialize logout_now
