-- ===== src/Mobile/Session/State.antt =====
-- The state of `Session`, and what its methods await.
use unity_runn.Prelude.{ℕ, String, Option, Bool, List}
use unity_runn.Exec.{Exec}
use unity_runn.Mobile.Api.{User, Payload, RequestOptions}

pub data Status : Type 0 where
  loading guest authenticated unavailable : Status

-- `SessionState`
pub record SessionState : Type 0 where
  pub status : Status
  pub user : Option User
  pub message : Option String

-- What other code observes of the session, one entry for each call.
pub data Effect : Type 0 where
  sent : String → RequestOptions → Effect
  cache_cleared : Effect
  notified : ℕ → SessionState → Effect

-- The fields of `Session`; a flight is the promise of a refresh or restore that has not settled.
-- `stored` is the refresh token that the token storage holds, `trace` the effects, the last one first.
pub record World : Type 0 where
  pub access_token : String
  pub state : SessionState
  pub listeners : List ℕ
  pub refresh_flight : Bool
  pub restore_flight : Bool
  pub identity_version : ℕ
  pub stored : Option String
  pub trace : List Effect

abbrev pub M : Type 0 → Type 0
M A = Exec World A

-- What the session awaits. While it waits other tasks run, so each of these returns the world as the
-- caller finds it when it goes on: nothing is said of it here.
pub record Env : Type 0 where
  pub transport : String → RequestOptions → M Payload
  pub storage_get : M (Option String)
  pub storage_set : String → M (Unit {0})
  pub storage_remove : M (Unit {0})
  -- the promise of a flight that another task has started
  pub join_refresh : M (Unit {0})
  pub join_restore : M (Unit {0})
  -- waiting for the operations that were queued before
  pub turn : World → World
  -- the other tasks that may run before a caller goes on after an `await` of a method of the session
  pub resume : World → World
