-- ===== src/Mobile/Session/Queue/Order.antt =====
-- The order in which queued operations start, and that they all do.
use unity_runn.Prelude.{◌≡◌, List, [], ◌∷◌, ◌++◌}
use unity_runn.Mobile.Session.Queue.{Task, Queue, Event, go, settle}

-- What was started and what waits is what was queued, in that order.
abbrev pub IsOrdered : Queue → Type 0
IsOrdered q = q.started ++ q.waiting ≡ q.queued

-- One round for each operation that waits: the running one settles, and the next one starts.
abbrev pub rounds : List Task → List Event
rounds [] = settle ∷ []
rounds (t ∷ ts) = settle ∷ go ∷ rounds ts
