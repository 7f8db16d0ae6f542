-- ===== src/Mobile/Session/Queue.antt =====
-- The promises behind the session: `serialize` and `refresh` of session.ts as the event loop runs them.
-- Every operation that `serialize` receives waits for the one queued before, whether that succeeded or
-- failed, and the single flight of `refresh` shares one rotation among its callers.
pub mod Order
pub mod SingleFlight
use unity_runn.Prelude.{ℕ, Option, none, some, List, [], ◌∷◌, ◌++◌}

-- A queued operation: the rotation of `refresh`, or another one, by its number.
pub data Task : Type 0 where
  rotation : Task
  operation : ℕ → Task

-- `this.refreshFlight` with the callers that wait for it: no promise; one whose rotation is queued or
-- runs; one whose rotation has ended and whose `finally` has not run yet.
pub data Flight : Type 0 where
  grounded : Flight
  flying : List ℕ → Flight
  landing : List ℕ → Flight

-- `this.queue` is the last promise of a chain: `current` runs and `waiting` is chained behind it.
-- `queued` and `started` are the operations that were handed to `serialize` and that were started so
-- far, `answered` the callers of `refresh` that have their answer.
pub record Queue : Type 0 where
  pub current : Option Task
  pub waiting : List Task
  pub flight : Flight
  pub queued : List Task
  pub started : List Task
  pub answered : List ℕ

abbrev pub idle : Queue
idle = record {
  current = none;
  waiting = [];
  flight = grounded;
  queued = [];
  started = [];
  answered = [];
}

-- `serialize(operation)`
abbrev pub enqueue : Task → Queue → Queue
enqueue t q = record q { waiting = q.waiting ++ t ∷ []; queued = q.queued ++ t ∷ [] }

abbrev join : Flight → ℕ → Queue → Queue
join grounded caller q = record (enqueue rotation q) { flight = flying (caller ∷ []) }
join (flying callers) caller q = record q { flight = flying (callers ++ caller ∷ []) }
join (landing callers) caller q = record q { flight = landing (callers ++ caller ∷ []) }

abbrev begin : Option Task → List Task → Queue → Queue
begin none (t ∷ ts) q = record q { current = some t; waiting = ts; started = q.started ++ t ∷ [] }
begin _ _ q = q

abbrev ended : Flight → Flight
ended (flying callers) = landing callers
ended f = f

abbrev finish : Option Task → Queue → Queue
finish none q = q
finish (some rotation) q = record q { current = none; flight = ended q.flight }
finish (some (operation n)) q = record q { current = none }

abbrev release : Flight → Queue → Queue
release (landing callers) q = record q { flight = grounded; answered = q.answered ++ callers }
release _ q = q

pub data Event : Type 0 where
  -- a caller calls `refresh()`, or hands an operation to `serialize`
  refresh : ℕ → Event
  serialize : ℕ → Event
  -- the operation that is next starts, the running one settles, the `finally` of the flight runs
  go settle land : Event

unfoldable pub step : Event → Queue → Queue
step (refresh caller) q = join q.flight caller q
step (serialize n) q = enqueue (operation n) q
step go q = begin q.current q.waiting q
step settle q = finish q.current q
step land q = release q.flight q

unfoldable pub run : List Event → Queue → Queue
run [] q = q
run (e ∷ es) q = run es (step e q)
