-- ===== src/Web/CheckIn/Runs.antt =====
-- frontend/src/pages/admin/checkin/index.tsx: what holds of the station whatever happens.
use unity_runn.Prelude.{
  ℕ, zero, suc, ◌≤◌, String, List, [], ◌∷◌, Bool, true, false, truthy, if◌then◌else◌, keep, map,
  length, ◌≡◌, refl, ap, arith,
}
use unity_runn.Exec.{ok, err}
use unity_runn.Web.CheckIn.{Registration, Texts, Station, take, recent_for_event}
use unity_runn.Web.CheckIn.Scans.{
  is_open, first_id, start_load, end_load, select_event, start_scan, scan_accepted, scan_refused,
  Scanning, loading_started, loading_ended, event_selected, token_typed, scanned, accepted, refused,
  step, run,
}

length-take {ℓ} : {A : Type ℓ} (n : ℕ) (xs : List A) → length (take n xs) ≤ n
unfolding take
length-take zero xs = omega arith
length-take (suc n) [] = omega arith
length-take (suc n) (x ∷ xs) = omega (arith, length-take n xs)

length-map {ℓ} : {A B : Type ℓ} (f : A → B) (xs : List A) → length (map f xs) ≡ length xs
length-map f [] = refl
length-map f (x ∷ xs) = ap suc (length-map f xs)

length-map-take {ℓ} :
    {A B : Type ℓ} (f : A → B) (n : ℕ) (xs : List A) → length (map f (take n xs)) ≤ n
length-map-take f n xs = omega (arith, length-map f (take n xs), length-take n xs)

recent_for_event-short :
    (j : Texts) (rs : List Registration) (id : String) → length (recent_for_event j rs id) ≤ 15
unfolding recent_for_event
recent_for_event-short j rs id = length-map-take _ 15 _

recent-short :
    (b : Bool) (j : Texts) (rs : List Registration) (id : String)
    → length (if b then recent_for_event j rs id else []) ≤ 15
recent-short true j rs id = recent_for_event-short j rs id
recent-short false j rs id = omega arith

abbrev pub IsShort : Station → Type 0
IsShort s = length s.recent_checkins ≤ 15

step-IsShort :
    (j : Texts) (already : String → Bool) (e : Scanning) (s : Station)
    → IsShort s
    → IsShort (step j already e s)
unfolding start_load end_load select_event start_scan scan_accepted scan_refused
step-IsShort j already loading_started s h = h
step-IsShort j already (loading_ended (ok (es, rs))) s h =
    let initial = first_id (keep is_open es) in recent-short (truthy initial) j rs initial
step-IsShort j already (loading_ended (err e)) s h = h
step-IsShort j already (event_selected id) s h = recent_for_event-short j s.registrations id
step-IsShort j already (token_typed t) s h = h
step-IsShort j already (scanned t) s h = ground arith
step-IsShort j already (accepted r at now) s h = omega (arith, length-take 14 s.recent_checkins)
step-IsShort j already (refused match e) s h = h

-- The station shows fifteen check-ins at most, whatever is loaded, chosen, scanned and answered.
pub run-IsShort :
    (j : Texts) (includes_already : String → Bool) (es : List Scanning) (s : Station)
    → IsShort s
    → IsShort (run j includes_already es s)
unfolding run
run-IsShort j already [] s h = h
run-IsShort j already (e ∷ es) s h =
    run-IsShort j already es (step j already e s) (step-IsShort j already e s h)
