-- ===== src/Mobile/Session/Identity.antt =====
-- How the session takes on and gives up an identity: `subscribe`, `emit`, `accept` and `forget`, and
-- the errors that session.ts throws.
use unity_runn.Prelude.{
  ℕ, ◌+◌, String, Option, none, some, List, [], ◌∷◌, ◌++◌, Bool, false, not, any, keep,
  if◌then◌else◌, ◌==◌, truthy,
}
use unity_runn.Exec.{Failure, api, plain, Result, ok, err, raise, modify, catching, given, ◌>>◌}
use unity_runn.Mobile.Api.{User, SessionResponse, Payload, absent, session, other, RequestOptions}
use unity_runn.Mobile.Session.State.{
  guest, authenticated, unavailable, SessionState, Effect, sent, cache_cleared, notified, World, M,
  Env,
}

abbrev pub api_error : String → ℕ → String → Failure
api_error message status code = api (record { message = message; status = status; code = code })

abbrev pub invalid_session : Failure
invalid_session = api_error "The service did not return a native session." 0 "invalid_response"

abbrev pub storage_error : Failure
storage_error = api_error "Could not clear the saved session." 0 "storage_error"

abbrev pub signed_out : Failure
signed_out = api_error "Sign in to continue." 401 "unauthorized"

abbrev pub session_changed : Failure
session_changed = api_error "Session changed." 401 "session_changed"

abbrev pub logout_unconfirmed : Failure
logout_unconfirmed =
    api_error
      "Signed out on this device. The server could not confirm session revocation; reconnect and sign in again if needed."
      0 "logout_unconfirmed"

-- Reading a field of `undefined` or `null`; the text of the engine's message is not modelled.
abbrev pub type_error : Failure
type_error = plain "TypeError"

-- `error instanceof ApiError && error.status === 401`
abbrev pub is_unauthorized : Failure → Bool
is_unauthorized (api e) = e.status == 401
is_unauthorized _ = false

-- `this.listeners.add(listener)`, and the function that `subscribe` returns
unfoldable pub subscribe : ℕ → World → World
subscribe l w =
    if any (λ k. k == l) w.listeners then w else record w { listeners = w.listeners ++ l ∷ [] }

unfoldable pub unsubscribe : ℕ → World → World
unsubscribe l w = record w { listeners = keep (λ k. not (k == l)) w.listeners }

abbrev pub notify : List ℕ → SessionState → List Effect → List Effect
notify [] s t = t
notify (l ∷ ls) s t = notify ls s (notified l s ∷ t)

unfoldable pub emit : SessionState → World → World
emit next w = record w { state = next; trace = notify w.listeners next w.trace }

unfoldable pub clear_cache : World → World
clear_cache w = record w { trace = cache_cleared ∷ w.trace }

abbrev pub present : Option String → Option String
present none = none
present (some s) = if truthy s then some s else none

-- A complete answer: the fields that `accept` has found not to be missing or empty.
pub record Pair : Type 0 where
  pub access : String
  pub refresh : String
  pub user : User

abbrev pub pair_of : Option String → Option String → Option User → Option Pair
pair_of (some a) (some r) (some u) =
    if truthy u.id then some (record { access = a; refresh = r; user = u }) else none
pair_of _ _ _ = none

abbrev pub issued : SessionResponse → Option Pair
issued r = pair_of (present r.access_token) (present r.refresh_token) r.user

-- The fields of an answer; none of them is there to read where the answer is `undefined` or `null`.
abbrev pub fields : Payload → Result SessionResponse
fields absent = err type_error
fields (session r) = ok r
fields (other json) = ok (record { access_token = none; refresh_token = none; user = none })

module _ (env : Env) where
  -- `await` of a method of the session
  abbrev pub awaiting : {A : Type 0} → M A → M A
  awaiting m w = ((m w).0, env.resume (m w).1)

  -- A call of the transport, recorded.
  unfoldable pub send : String → RequestOptions → M Payload
  send path options w =
      env.transport path options (record w { trace = sent path options ∷ w.trace })

  unfoldable pub accept_pair : Pair → M (Unit {0})
  accept_pair p = do
    env.storage_set p.refresh
    modify (λ w. record w { access_token = p.access })
    modify (emit (record { status = authenticated; user = some p.user; message = none }))

  unfoldable pub accept_fields : SessionResponse → M (Unit {0})
  accept_fields r = given (issued r) (raise invalid_session) accept_pair

  unfoldable pub accept : Payload → M (Unit {0})
  accept result w = elim (fields result) [ ok r ↦ accept_fields r w | err e ↦ (err e, w) ]

  unfoldable pub forget : M (Unit {0})
  forget = do
    modify (λ w. record w { access_token = ""; identity_version = w.identity_version + 1 })
    modify clear_cache
    catching env.storage_remove (λ _. do
      modify (
          emit (record {
            status = unavailable;
            user = none;
            message = some "Could not clear the saved session. Try signing out again.";
          }))
      raise storage_error)
    modify (emit (record { status = guest; user = none; message = none }))
