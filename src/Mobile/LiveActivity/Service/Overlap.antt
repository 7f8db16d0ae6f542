-- ===== src/Mobile/LiveActivity/Service/Overlap.antt =====
-- Starts that overlap with the look for orphans.
use unity_runn.Prelude.{ℕ, suc, ◌+◌, ◌≡◌, refl, arith, List, ◌⊎◌, inl, inr, true, false, Bool-cases}
use unity_runn.Exec.{Failure, ok, err, Result-split}
use unity_runn.Mobile.LiveActivity.Service.{
  Service, Calls, ActivityRecord, begin_start, end_start, path, quiet, running_ids, orphans,
  dismiss, reconcile_orphans, snapshot, get_active,
}

-- What other tasks do while a call is awaited: they begin and end starts, and change what is no counter.
pub data Awaits {S : Type 0} : ℕ → Service S → Service S → Type 0 where
  rest : (w : Service S) (s : S) → Awaits 0 w (record w { outer = s })
  begins : (n : ℕ) (w v : Service S) → Awaits n w v → Awaits (suc n) w (begin_start v)
  ends : (n : ℕ) (w v : Service S) → Awaits n w v → Awaits (suc n) w (end_start v)

-- Each event of a start moves the generation on.
Awaits-generation :
    {S : Type 0} (n : ℕ) (w v : Service S)
    → Awaits n w v
    → v.start_generation ≡ w.start_generation + n
Awaits-generation n w v (rest _ s) = omega arith
Awaits-generation n w v (begins m _ u h) = omega (arith, Awaits-generation m w u h)
Awaits-generation n w v (ends m _ u h) = omega (arith, Awaits-generation m w u h)

Awaits-none :
    {S : Type 0} (n : ℕ) (w v : Service S)
    → Awaits n w v
    → n ≡ 0
    → v.starts_in_flight ≡ w.starts_in_flight
Awaits-none n w v (rest _ s) e = refl
Awaits-none n w v (begins m _ u h) e = omega (arith, e)
Awaits-none n w v (ends m _ u h) e = omega (arith, e)

quiet_lem :
    {S : Type 0} (n m : ℕ) (w v u : Service S)
    → Awaits n w v
    → Awaits m v u
    → quiet w.start_generation u ≡ true
    → (n ≡ 0) × (m ≡ 0) × (w.starts_in_flight ≡ 0)
quiet_lem n m w v u h k q =
    let first = Awaits-generation n w v h in
    let second = Awaits-generation m v u k in
    let same : (u.starts_in_flight ≡ 0) × (w.start_generation ≡ u.start_generation) =
      ground arith in
    let n0 : n ≡ 0 = omega arith in
    let m0 : m ≡ 0 = omega arith in
    let kept = Awaits-none n w v h n0 in let kept' = Awaits-none m v u k m0 in (n0, m0, omega arith)

module _ {S : Type 0} (c : Calls S) where
  -- The states in which the two awaited calls of `getActive` settle
  abbrev pub asked : Service S → Service S
  asked w = (c.running w).1

  abbrev pub answered : Service S → Service S
  answered w = (c.list path (asked w)).1

  get_active-refused :
      (w : Service S) (e : Failure)
      → (c.list path (asked w)).0 ≡ err e
      → (get_active c w).1 ≡ answered w
  unfolding get_active
  get_active-refused w e h = ground arith

  get_active-noisy :
      (w : Service S) (active : List ActivityRecord)
      → (c.list path (asked w)).0 ≡ ok active
      → quiet w.start_generation (answered w) ≡ false
      → (get_active c w).1 ≡ answered w
  unfolding get_active snapshot
  get_active-noisy w active h q = rw (h, q) refl

  get_active-quiet :
      (w : Service S) (active : List ActivityRecord)
      → (c.list path (asked w)).0 ≡ ok active
      → quiet w.start_generation (answered w) ≡ true
      → (get_active c w).1 ≡ dismiss c (orphans active (running_ids (c.running w).0)) (answered w)
  unfolding get_active snapshot reconcile_orphans
  get_active-quiet w active h q = rw (h, q) refl

-- Where other tasks begin and end starts while `getActive` waits, either it dismisses nothing, or no
-- start was in flight when it was called and none began or ended until the backend had answered; then
-- it ends the activities that the phone had listed and that the answer does not contain.
pub get_active-spares :
    {S : Type 0} (c : Calls S) (w : Service S) (n m : ℕ)
    → Awaits n w (asked c w)
    → Awaits m (asked c w) (answered c w)
    → ((get_active c w).1 ≡ answered c w)
      ⊎ ((n ≡ 0)
          × (m ≡ 0)
          × (w.starts_in_flight ≡ 0)
          × ((active : List ActivityRecord) × ((c.list path (asked c w)).0 ≡ ok active)
              × ((get_active c w).1
                  ≡ dismiss c (orphans active (running_ids (c.running w).0)) (answered c w))))
get_active-spares c w n m h k = elim (Result-split (c.list path (asked c w)).0) [
  | inr (e, refused) ↦ inl (get_active-refused c w e refused)
  | inl (active, answer) ↦ elim (Bool-cases (quiet w.start_generation (answered c w))) [
    | inr noisy ↦ inl (get_active-noisy c w active answer noisy)
    | inl calm ↦
        let (n0, m0, idle) = quiet_lem n m w (asked c w) (answered c w) h k calm in
        inr (n0, m0, idle, (active, answer, get_active-quiet c w active answer calm))
  ]
]
