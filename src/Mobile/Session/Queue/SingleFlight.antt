-- ===== src/Mobile/Session/Queue/SingleFlight.antt =====
-- The single flight of `refresh`: at most one rotation is queued or running, and all callers share it.
use unity_runn.Prelude.{
  ℕ, ◌+◌, ◌≡◌, refl, ◌∙◌, ap, sym, map, Option, none, some, List, [], ◌∷◌, ◌++◌, length,
  length-append, arith,
}
use mathlib.Core.List.{append_assoc, append-nil}
use unity_runn.Mobile.Session.Queue.{
  Task, rotation, operation, Flight, grounded, flying, landing, Queue, join, release, Event,
  refresh, serialize, go, settle, land, step, run,
}

abbrev is_rotation : Task → ℕ
is_rotation rotation = 1
is_rotation (operation n) = 0

abbrev rotations : List Task → ℕ
rotations [] = 0
rotations (t ∷ ts) = is_rotation t + rotations ts

abbrev running : Option Task → ℕ
running none = 0
running (some t) = is_rotation t

-- The rotations that are queued or run
abbrev pub pending : Queue → ℕ
pending q = running q.current + rotations q.waiting

abbrev pub in_flight : Flight → ℕ
in_flight (flying cs) = 1
in_flight _ = 0

rotations-append : (ts us : List Task) → rotations (ts ++ us) ≡ rotations ts + rotations us
rotations-append [] us = omega arith
rotations-append (t ∷ ts) us = omega (arith, rotations-append ts us)

abbrev pub IsSingle : Queue → Type 0
IsSingle q = pending q ≡ in_flight q.flight

step-IsSingle : (e : Event) (q : Queue) → IsSingle q → IsSingle (step e q)
unfolding step
step-IsSingle (refresh c) q h = ground (arith, rotations-append q.waiting (rotation ∷ []))
step-IsSingle (serialize n) q h = ground (arith, rotations-append q.waiting (operation n ∷ []))
step-IsSingle go q h = ground arith
step-IsSingle settle q h = ground arith
step-IsSingle land q h = ground arith

-- Whatever the events, one rotation is queued or running exactly while a flight is open, and none
-- otherwise.
pub run-IsSingle : (es : List Event) (q : Queue) → IsSingle q → IsSingle (run es q)
unfolding run
run-IsSingle [] q h = h
run-IsSingle (e ∷ es) q h = run-IsSingle es (step e q) (step-IsSingle e q h)

abbrev pub calling : List ℕ → List Event
calling cs = map refresh cs

joining :
    (cs before : List ℕ) (q : Queue)
    → q.flight ≡ flying before
    → let q' = run (calling cs) q in (q'.queued ≡ q.queued) × (q'.flight ≡ flying (before ++ cs))
unfolding run
joining [] before q h = (refl, h ∙ ap flying (sym (append-nil before)))
joining (c ∷ cs) before q h =
    let (first, open_still) = join_lem c before q h in
    let (rest, all) = joining cs (before ++ c ∷ []) (step (refresh c) q) open_still in
    (rest ∙ first, all ∙ ap flying (append_assoc before (c ∷ []) cs))
  where
    join_lem :
        (c : ℕ) (before : List ℕ) (q : Queue)
        → q.flight ≡ flying before
        → ((step (refresh c) q).queued ≡ q.queued)
          × ((step (refresh c) q).flight ≡ flying (before ++ c ∷ []))
    join_lem c before q h = unfold step in ground arith

-- However many callers ask for a refresh while none is open, one rotation is queued, and all of them
-- wait for it.
pub calling-shares :
    (c : ℕ) (cs : List ℕ) (q : Queue)
    → q.flight ≡ grounded
    → let q' = run (calling (c ∷ cs)) q in
      (q'.queued ≡ q.queued ++ rotation ∷ []) × (q'.flight ≡ flying (c ∷ cs))
unfolding run
calling-shares c cs q h =
    let (opened, flight) = open_lem in
    let (rest, all) = joining cs (c ∷ []) (step (refresh c) q) flight in (rest ∙ opened, all)
  where
    open_lem :
        ((step (refresh c) q).queued ≡ q.queued ++ rotation ∷ [])
        × ((step (refresh c) q).flight ≡ flying (c ∷ []))
    open_lem = unfold step in ground arith

-- The callers that a flight still owes an answer
abbrev pub owed : Flight → ℕ
owed grounded = 0
owed (flying cs) = length cs
owed (landing cs) = length cs

abbrev asks : Event → ℕ
asks (refresh c) = 1
asks _ = 0

abbrev pub asked : List Event → ℕ
asked [] = 0
asked (e ∷ es) = asks e + asked es

join-owed :
    (f : Flight) (c : ℕ) (q : Queue)
    → length (join f c q).answered + owed (join f c q).flight ≡ 1 + (length q.answered + owed f)
join-owed grounded c q = omega arith
join-owed (flying cs) c q = omega (arith, length-append cs (c ∷ []))
join-owed (landing cs) c q = omega (arith, length-append cs (c ∷ []))

release-owed :
    (f : Flight) (q : Queue)
    → q.flight ≡ f
    → length (release f q).answered + owed (release f q).flight ≡ length q.answered + owed f
release-owed grounded q e = rw e refl
release-owed (flying cs) q e = rw e refl
release-owed (landing cs) q e = omega (arith, length-append q.answered cs)

step-owed :
    (e : Event) (q : Queue)
    → length (step e q).answered + owed (step e q).flight
      ≡ asks e + (length q.answered + owed q.flight)
unfolding step
step-owed (refresh c) q = join-owed q.flight c q
step-owed (serialize n) q = omega arith
step-owed go q = ground arith
step-owed settle q = ground arith
step-owed land q = omega (arith, release-owed q.flight q refl)

-- No caller is lost: those that were answered and those that wait are those that asked.
pub run-owed :
    (es : List Event) (q : Queue)
    → length (run es q).answered + owed (run es q).flight
      ≡ asked es + (length q.answered + owed q.flight)
unfolding run
run-owed [] q = omega arith
run-owed (e ∷ es) q = omega (arith, run-owed es (step e q), step-owed e q)
