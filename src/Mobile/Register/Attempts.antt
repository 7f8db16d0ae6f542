-- ===== src/Mobile/Register/Attempts.antt =====
-- How a submission of the form ends.
use unity_runn.Prelude.{
  ℕ, zero, suc, ◌+◌, ◌*◌, ◌≡◌, refl, arith, some, Bool, true, false, ◌&&◌, inl, inr, ltb, truthy,
  if◌then◌else◌, Bool-cases, ◌∙◌,
}
use unity_runn.Exec.{Result, ok, err}
use unity_runn.Mobile.Register.{
  Screen, Values, Entered, is_busy, entered, rejected, max_attempts, try_register, payload, submit,
}

abbrev pub busy : Result Entered → Bool
busy (ok r) = false
busy (err e) = is_busy e

-- What the answer to the last attempt makes of the screen
abbrev pub settled : Result Entered → Screen → Screen
settled (ok r) s = entered r s
settled (err e) s = rejected e s

-- The milliseconds before attempt number `n`: 1200 for each attempt before, counted from one.
abbrev pub waiting : ℕ → ℕ
waiting zero = 0
waiting (suc zero) = 0
waiting (suc (suc n)) = waiting (suc n) + (suc n) * 1200

abbrev pub attempted : ℕ → Screen → Screen
attempted n s = record s { attempts = s.attempts + n; waited = s.waited + waiting n }

retry-busy :
    (service : ℕ → Result Entered) (left attempt : ℕ) (s : Screen)
    → busy (service attempt) ≡ true
    → ltb attempt max_attempts ≡ true
    → try_register service (suc left) attempt s
      ≡ try_register service left (attempt + 1) (record s {
        attempts = s.attempts + 1;
        retrying = true;
        waited = s.waited + attempt * 1200;
      })
unfolding try_register
retry-busy service left attempt s b more = ground arith

retry-settled :
    (service : ℕ → Result Entered) (left attempt : ℕ) (s : Screen)
    → (busy (service attempt) && ltb attempt max_attempts) ≡ false
    → try_register service (suc left) attempt s
      ≡ settled (service attempt) (record s { attempts = s.attempts + 1 })
unfolding try_register
retry-settled service left attempt s b = ground arith

-- The number of the attempt whose answer counts
abbrev pub deciding : (ℕ → Result Entered) → ℕ
deciding service = if busy (service 1) then (if busy (service 2) then 3 else 2) else 1

settled-counts :
    (r : Result Entered) (s : Screen) (b : Bool) (a a' w w' : ℕ)
    → a ≡ a'
    → w ≡ w'
    → settled r (record s { retrying = b; attempts = a; waited = w })
      ≡ settled r (record s { attempts = a'; waited = w' })
unfolding entered rejected
settled-counts (ok r) s b a a' w w' e f = rw (e, f) refl
settled-counts (err x) s b a a' w w' e f = rw (e, f) refl

try_register-settles :
    (service : ℕ → Result Entered) (s : Screen)
    → try_register service 3 1 s
      ≡ settled (service (deciding service)) (attempted (deciding service) s)
try_register-settles service s = elim (Bool-cases (busy (service 1))) [
  | inr first ↦ rw first (
      retry-settled service 2 1 s (ground arith)
      ∙ settled-counts (service 1) s s.retrying _ _ _ _ refl (omega arith))
  | inl first ↦ elim (Bool-cases (busy (service 2))) [
    | inr second ↦
        rw (first, second)
          (retry-busy service 2 1 s first refl
            ∙ retry-settled service 1 2 _ (ground arith)
            ∙ settled-counts (service 2) s true _ _ _ _ (omega arith) (omega arith))
    | inl second ↦
        rw (first, second)
          (retry-busy service 2 1 s first refl
            ∙ retry-busy service 1 2 _ second refl
            ∙ retry-settled service 0 3 _ (ground arith)
            ∙ settled-counts (service 3) s true _ _ _ _ (omega arith) (omega arith))
  ]
]

-- A submission with a category chosen always ends: after one attempt, or a second and a third one where
-- those before were answered as busy, with 1.2 and 2.4 seconds in between. The answer to the last attempt
-- then decides: an entry opens its payment or the wallet, and an error is shown.
pub submit-settles :
    (service : ℕ → Result Entered) (values : Values) (s : Screen)
    → truthy s.category ≡ true
    → let n = deciding service in
      submit service true values s
      ≡ settled
          (service n)
          (attempted n (record s { submit_error = ""; sent = some (payload values s) }))
unfolding submit
submit-settles service values s chosen =
    rw chosen (
      try_register-settles service (record s { submit_error = ""; sent = some (payload values s) }))
