-- ===== src/Mobile/Session/Request.antt =====
-- `request` of session.ts: a call of the service under the session's access token, retried once after
-- a refresh.
pub mod Stale
use unity_runn.Prelude.{
  ℕ, String, some, Bool, true, false, not, ◌&&◌, ◌||◌, if◌then◌else◌, ◌==◌, truthy, str_eq,
}
use unity_runn.Exec.{Failure, pure, raise, gets, catching, branch, when, ◌>>=◌, ◌>>◌}
use unity_runn.Mobile.Api.{Payload, RequestOptions}
use unity_runn.Mobile.Session.State.{Status, loading, M, Env}
use unity_runn.Mobile.Session.Identity.{session_changed, is_unauthorized, awaiting, send, forget}
use unity_runn.Mobile.Session.Operations.{serialize, refresh, restore}

abbrev is_loading : Status → Bool
is_loading loading = true
is_loading _ = false

-- `version === this.identityVersion`
abbrev pub unchanged : ℕ → M Bool
unchanged version = gets (λ w. version == w.identity_version)

module _ (env : Env) (path : String) (options : RequestOptions) where
  -- `send` of the source: under the access token of the moment
  unfoldable pub send_now : M Payload
  send_now w = send env path (record options { token = some w.access_token }) w

  -- An answer counts only if the identity is the one that asked.
  unfoldable pub send_checked : ℕ → M Payload
  send_checked version = do
    result ← send_now
    same ← unchanged version
    branch same (pure result) (raise session_changed)

  -- The session is given up only if it is still the one that was refused.
  unfoldable pub give_up : ℕ → Failure → M Payload
  give_up version error = do
    same ← unchanged version
    when (is_unauthorized error && same) (
        awaiting env
          (serialize env (do still ← unchanged version; when still (awaiting env (forget env)))))
    raise error

  -- The second call, if the identity is still the one that asked.
  unfoldable pub resend : ℕ → M Payload
  resend version = do
    same ← unchanged version
    branch same (catching (send_checked version) (give_up version)) (raise session_changed)

  -- A refusal may be of an older token, which another request has rotated since.
  unfoldable pub retry : ℕ → String → M Payload
  retry version initial = do
    current ← gets (λ w. w.access_token)
    when (str_eq current initial) (awaiting env (refresh env))
    resend version

  unfoldable pub refused : ℕ → String → Failure → M Payload
  refused version initial error = do
    same ← unchanged version
    branch (not (is_unauthorized error) || not same) (raise error) (retry version initial)

  unfoldable pub attempt : M Payload
  attempt w =
      catching (send_checked w.identity_version) (refused w.identity_version w.access_token) w

-- The beginning of `request`: a session that is restored, and an access token, where they are missing.
unfoldable pub prepare : Env → M (Unit {0})
prepare env = do
  before ← gets (λ w. w.state.status)
  when (is_loading before) (awaiting env (restore env))
  token ← gets (λ w. w.access_token)
  when (not (truthy token)) (awaiting env (refresh env))

unfoldable pub request : Env → String → RequestOptions → M Payload
request env path options = do prepare env; attempt env path options
