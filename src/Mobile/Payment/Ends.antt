-- ===== src/Mobile/Payment/Ends.antt =====
-- What holds of a payment's sheet through all events, and how a payment ends.
use unity_runn.Prelude.{
  String, ◌≡◌, refl, arith, Option, none, some, List, [], ◌∷◌, Bool, true, false, not, ◌||◌, ◌≤◌,
  ◌∙◌, ◌⊎◌, inl, inr, ltb, truthy, str_eq, if◌then◌else◌, Bool-cases,
}
use unity_runn.Mobile.Payment.{
  Phase, processing, failed, CheckoutStatus, status_pending, status_processing, status_succeeded,
  status_failed, Sheet, payment_failure_message, code_of, open_sheet, is_over, guards, verify_begin,
  verify_failed, verify_end, answered, threw, submit_begin, submit_end, accepted, refused, Event,
  asks, verified, submits, submitted, step, run, Verified,
}

abbrev is_failed : Phase → Bool
is_failed failed = true
is_failed _ = false

-- The refs and the state agree on the phase, one check at most waits for an answer and none for a payment
-- that is over, and a payment that has failed says why.
abbrev pub IsConsistent : Sheet → Type 0
IsConsistent s =
    (s.phase ≡ s.phase_ref)
    × (s.verifying ≡ (if s.checking_ref then 1 else 0))
    × ((not (is_failed s.phase) || truthy s.failure_message) ≡ true)
    × ((not (is_over s.phase) || not s.checking_ref) ≡ true)

pub open_sheet-IsConsistent : (c : CheckoutStatus) → IsConsistent (open_sheet c)
unfolding open_sheet
open_sheet-IsConsistent status_pending = (refl, refl, refl, refl)
open_sheet-IsConsistent status_processing = (refl, refl, refl, refl)
open_sheet-IsConsistent status_succeeded = (refl, refl, refl, refl)
open_sheet-IsConsistent status_failed = (refl, refl, refl, refl)

verify_begin-IsConsistent :
    (b : Bool) (s : Sheet) → IsConsistent s → IsConsistent (verify_begin b s)
unfolding verify_begin guards
verify_begin-IsConsistent b s h = ground arith

abbrev Telling : Option String → Type 0
Telling none = Unit
Telling (some m) = truthy m ≡ true

Telling-if : (b : Bool) (x y : Option String) → Telling x → Telling y → Telling (if b then x else y)
Telling-if true x y h k = h
Telling-if false x y h k = k

payment_failure_message-Telling : (code : Option String) → Telling (payment_failure_message code)
unfolding payment_failure_message
payment_failure_message-Telling none = tt
payment_failure_message-Telling (some code) = Telling-if (str_eq code "payment_expired") _ _ refl (
    Telling-if (str_eq code "payment_mismatch") _ _ refl (
      Telling-if (str_eq code "payment_unavailable") _ _ refl
        (Telling-if (str_eq code "payment_failed") _ none refl tt)))

verify_failed-IsConsistent :
    (o : Option String) (s : Sheet)
    → Telling o
    → ltb 0 s.verifying ≡ true
    → IsConsistent s
    → IsConsistent (verify_failed o s)
unfolding verify_failed
verify_failed-IsConsistent none s told l h = ground arith
verify_failed-IsConsistent (some m) s told l h = ground arith

verify_end-IsConsistent :
    (v : Verified) (s : Sheet)
    → ltb 0 s.verifying ≡ true
    → IsConsistent s
    → IsConsistent (verify_end v s)
unfolding verify_end
verify_end-IsConsistent (answered a b) s l h = ground arith
verify_end-IsConsistent (threw e) s l h =
    verify_failed-IsConsistent _ s (payment_failure_message-Telling (code_of e)) l h

step-IsConsistent : (e : Event) (s : Sheet) → IsConsistent s → IsConsistent (step e s)
unfolding step submit_begin submit_end
step-IsConsistent (asks b) s h = verify_begin-IsConsistent b s h
step-IsConsistent (verified v) s h = elim (Bool-cases (ltb 0 s.verifying)) [
  | inl l ↦ rw l (verify_end-IsConsistent v s l h)
  | inr l ↦ rw l h
]
step-IsConsistent (submits trimmed) s h = ground arith
step-IsConsistent (submitted accepted) s h = ground arith
step-IsConsistent (submitted (refused e)) s h = ground arith

run-keeps : (es : List Event) (s : Sheet) → IsConsistent s → IsConsistent (run es s)
unfolding run
run-keeps [] s h = h
run-keeps (e ∷ es) s h = run-keeps es (step e s) (step-IsConsistent e s h)

-- Through every order of events a sheet that was opened for a checkout keeps its ref and its state on the
-- same phase, waits for one check at most and for none once the payment is over, and says why a payment
-- failed.
pub run-IsConsistent : (c : CheckoutStatus) (es : List Event) → IsConsistent (run es (open_sheet c))
run-IsConsistent c es = run-keeps es (open_sheet c) (open_sheet-IsConsistent c)

-- An accepted submission takes the sheet back to a payment that is processed.
abbrev pub Reopens : Event → Sheet → Type 0
Reopens e s =
    (ltb 0 s.submitting ≡ true) × (e ≡ submitted accepted) × ((step e s).phase ≡ processing)

pub step-over :
    (e : Event) (s : Sheet)
    → IsConsistent s
    → is_over s.phase ≡ true
    → (((step e s).phase ≡ s.phase)
        × ((step e s).verifying ≡ s.verifying)
        × ((step e s).submitting ≤ s.submitting))
      ⊎ Reopens e s
unfolding step verify_begin guards submit_begin submit_end
step-over (asks b) s h over = ground arith
step-over (verified v) s h over = ground arith
step-over (submits trimmed) s h over = ground arith
step-over (submitted accepted) s h over = ground arith
step-over (submitted (refused e)) s h over = ground arith

-- A payment that is over, and for which no submission waits, stays over as it ended, whatever comes.
pub run-stays_over :
    (es : List Event) (s : Sheet)
    → IsConsistent s
    → is_over s.phase ≡ true
    → s.submitting ≡ 0
    → (run es s).phase ≡ s.phase
unfolding run
run-stays_over [] s h over none_waits = refl
run-stays_over (e ∷ es) s h over none_waits = elim (step-over e s h over) [
  | inl (same, checks, submissions) ↦
      run-stays_over es (step e s) (step-IsConsistent e s h) (rw same over) (omega arith) ∙ same
  | inr (waits, accepts, processed) ↦ ground arith
]
