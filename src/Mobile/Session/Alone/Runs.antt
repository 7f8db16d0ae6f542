-- ===== src/Mobile/Session/Alone/Runs.antt =====
-- Sequences of calls of a session.
use unity_runn.Prelude.{ℕ, String, Option, List, [], ◌∷◌, arith}
use unity_runn.Mobile.Api.{RequestOptions}
use unity_runn.Mobile.Session.State.{World}
use unity_runn.Mobile.Session.Identity.{subscribe, unsubscribe}
use unity_runn.Mobile.Session.Operations.{
  Kind, authenticate, login_with_google, refresh, restore, logout,
}
use unity_runn.Mobile.Session.Request.{request}
use unity_runn.Mobile.Session.Alone.{Backing, alone}
use unity_runn.Mobile.Session.Alone.Invariant.{
  IsValid, request-Keeps, restore-IsValid, refresh-IsFit, logout-IsFit, establish-IsFit,
}

-- The public methods of `Session`
pub data Call : Type 0 where
  sign_in : Kind → (email password : String) → Option String → Call
  google : String → Call
  rotation restoring sign_out : Call
  asking : String → RequestOptions → Call
  listen unlisten : ℕ → Call

module _ (b : Backing) where
  unfoldable pub perform : Call → World → World
  perform (sign_in kind email password name) w =
      (authenticate (alone b) kind email password name w).1
  perform (google code) w = (login_with_google (alone b) code w).1
  perform rotation w = (refresh (alone b) w).1
  perform restoring w = (restore (alone b) w).1
  perform sign_out w = (logout (alone b) w).1
  perform (asking path options) w = (request (alone b) path options w).1
  perform (listen l) w = subscribe l w
  perform (unlisten l) w = unsubscribe l w

  unfoldable pub run : List Call → World → World
  run [] w = w
  run (c ∷ cs) w = run cs (perform c w)

  perform-IsValid : (c : Call) (w : World) → IsValid w → IsValid (perform c w)
  unfolding perform authenticate login_with_google subscribe unsubscribe
  perform-IsValid (sign_in kind email password name) w h = establish-IsFit b _ _ _ _ w h
  perform-IsValid (google code) w h = establish-IsFit b _ _ _ _ w h
  perform-IsValid rotation w h = refresh-IsFit b _ w h
  perform-IsValid restoring w h = restore-IsValid b w h
  perform-IsValid sign_out w h = logout-IsFit b _ _ w h
  perform-IsValid (asking path options) w h = (request-Keeps b path options).at w h
  perform-IsValid (listen l) w h = ground arith
  perform-IsValid (unlisten l) w h = ground arith

-- Through every sequence of calls that do not overlap, from a consistent session, whatever the service
-- answers and whichever storage calls fail, the session stays consistent: an authenticated session has a
-- user, an access token and a stored refresh token; a guest has none of these; no session but an
-- authenticated one shows a user; and no flight is left open.
pub run-IsValid : (b : Backing) (cs : List Call) (w : World) → IsValid w → IsValid (run b cs w)
unfolding run
run-IsValid b [] w h = h
run-IsValid b (c ∷ cs) w h = run-IsValid b cs (perform b c w) (perform-IsValid b c w h)
