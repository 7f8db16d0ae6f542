-- ===== src/Mobile/Session/Alone.antt =====
-- The session of session.ts with no other task at work: the service answers by what was sent to it so
-- far, and the token storage does what its type says or fails.
pub mod Tests
pub mod Endings
pub mod Answers
pub mod Invariant
pub mod Runs
pub mod Calls
use unity_runn.Prelude.{String, Option, none, some, List}
use unity_runn.Exec.{Failure, Result, ok, err}
use unity_runn.Mobile.Api.{Payload, RequestOptions}
use unity_runn.Mobile.Session.State.{Effect, World, Env}

-- The service and the faults of the storage, as functions of the effects so far. A storage that fails
-- to write may hold anything afterwards.
pub record Backing : Type 0 where
  pub reply : String → RequestOptions → List Effect → Result Payload
  pub get_fault : List Effect → Option Failure
  pub set_fault : String → List Effect → Option (Failure × Option String)
  pub remove_fault : List Effect → Option (Failure × Option String)

abbrev pub fetched : Option Failure → Option String → Result (Option String)
fetched none s = ok s
fetched (some e) s = err e

abbrev pub written : Option (Failure × Option String) → Result (Unit {0})
written none = ok tt
written (some (e, s)) = err e

abbrev pub holds : Option (Failure × Option String) → Option String → Option String
holds none s = s
holds (some (e, t)) s = t

abbrev pub alone : Backing → Env
alone b = record {
  transport = λ path options w. (b.reply path options w.trace, w);
  storage_get = λ w. (fetched (b.get_fault w.trace) w.stored, w);
  storage_set = λ t w. (
    written (b.set_fault t w.trace),
    record w { stored = holds (b.set_fault t w.trace) (some t) },
  );
  storage_remove = λ w.
      (written (b.remove_fault w.trace), record w { stored = holds (b.remove_fault w.trace) none });
  join_refresh = λ w. (ok tt, w);
  join_restore = λ w. (ok tt, w);
  turn = λ w. w;
  resume = λ w. w;
}
