-- ===== src/Mobile/Payment.antt =====
-- mobile/features/payment/BakongPayment.tsx: the sheet of a payment that the service is asked about again
-- and again. A call of the service is two events, its beginning and its end, so that other calls come in
-- between. A reference is the text after `trim`.
pub mod Ends
mod Examples
use Prim.Native.String.{len}
use unity_runn.Prelude.{
  ℕ, ◌+◌, ◌-◌, ◌/◌, String, Option, none, some, List, [], ◌∷◌, Bool, true, false, not, ◌&&◌, ◌||◌,
  ltb, leb, str_eq, or_else, if◌then◌else◌,
}
use unity_runn.Exec.{Failure, api, unsupported, plain, foreign}

pub data Phase : Type 0 where
  waiting processing confirmed failed : Phase

pub data CheckoutStatus : Type 0 where
  status_pending status_processing status_succeeded status_failed : CheckoutStatus

-- The state of the component, with its two refs, and how many checks and submissions wait for an answer.
pub record Sheet : Type 0 where
  pub phase : Phase
  pub phase_ref : Phase
  pub checking : Bool
  pub checking_ref : Bool
  pub failed_checks : ℕ
  pub failure_message : String
  pub submit_error : String
  pub verifying : ℕ
  pub submitting : ℕ

unfoldable pub payment_failure_message : Option String → Option String
payment_failure_message none = none
payment_failure_message (some code) =
    if str_eq code "payment_expired"
    then some
        "This payment window expired. Your place was released and the QR code can no longer be used."
    else if str_eq code "payment_mismatch"
    then some "The reported payment does not match this entry. Contact support before paying again."
    else if str_eq code "payment_unavailable"
    then some "This payment could not be completed. Do not pay the same QR code again."
    else if str_eq code "payment_failed"
    then some
        "The organizer could not match this payment. Check the bank reference or contact the race team before paying again."
    else none

-- `caught instanceof ApiError ? caught.code : undefined`
abbrev pub code_of : Failure → Option String
code_of (api e) = some e.code
code_of _ = none

-- `caught instanceof Error ? caught.message : fallback`
abbrev pub message_of : Failure → String → String
message_of (api e) fallback = e.message
message_of (unsupported m) fallback = m
message_of (plain m) fallback = m
message_of (foreign b) fallback = fallback

abbrev pub initial_phase : CheckoutStatus → Phase
initial_phase status_processing = processing
initial_phase status_failed = failed
initial_phase status_succeeded = confirmed
initial_phase status_pending = waiting

abbrev first_message : CheckoutStatus → String
first_message status_failed =
    "This payment was not approved. Contact the race team before paying again."
first_message _ = ""

unfoldable pub open_sheet : CheckoutStatus → Sheet
open_sheet status = record {
  phase = initial_phase status;
  phase_ref = initial_phase status;
  checking = false;
  checking_ref = false;
  failed_checks = 0;
  failure_message = first_message status;
  submit_error = "";
  verifying = 0;
  submitting = 0;
}

abbrev pub is_over : Phase → Bool
is_over confirmed = true
is_over failed = true
is_over _ = false

abbrev pub is_waiting : Phase → Bool
is_waiting waiting = true
is_waiting _ = false

-- `phaseRef.current = phase; setPhase(phase)`
abbrev pub enter : Phase → Sheet → Sheet
enter p s = record s { phase = p; phase_ref = p }

-- `Math.max(0, Math.ceil((expiresAt - now) / 1000))`
unfoldable pub seconds_left : Option ℕ → ℕ → Option ℕ
seconds_left none now = none
seconds_left (some expires_at) now = some ((expires_at - now + 999) / 1000)

-- The answer of the service to `verify`: whether it reports a confirmed entry or a payment that succeeded.
pub data Verified : Type 0 where
  answered : (entry_confirmed payment_succeeded : Bool) → Verified
  threw : Failure → Verified

pub data Submitted : Type 0 where
  accepted : Submitted
  refused : Failure → Submitted

unfoldable pub guards : Sheet → Bool
guards s = s.checking_ref || is_over s.phase_ref

-- `verify` until its request is sent
unfoldable pub verify_begin : Bool → Sheet → Sheet
verify_begin requested_by_runner s =
    if guards s
    then s
    else (let t = if requested_by_runner && is_waiting s.phase_ref then enter processing s else s in
        record t { checking = true; checking_ref = true; verifying = t.verifying + 1 })

-- `finally`
abbrev pub rested : Sheet → Sheet
rested s = record s { checking = false; checking_ref = false; verifying = s.verifying - 1 }

-- The `catch` of `verify`, with the message of a payment that cannot succeed any more.
unfoldable pub verify_failed : Option String → Sheet → Sheet
verify_failed (some message) s = rested (record (enter failed s) { failure_message = message })
verify_failed none s = rested (record s { failed_checks = s.failed_checks + 1 })

-- `verify` from the answer on
unfoldable pub verify_end : Verified → Sheet → Sheet
verify_end (answered entry_confirmed payment_succeeded) s =
    if entry_confirmed || payment_succeeded
    then rested (enter confirmed s)
    else rested (record s { failed_checks = 0 })
verify_end (threw e) s = verify_failed (payment_failure_message (code_of e)) s

unfoldable pub submit_begin : String → Sheet → Sheet
submit_begin trimmed s =
    if ltb (len trimmed) 4
    then record s { submit_error = "Enter the transaction reference shown by your banking app." }
    else record s { submit_error = ""; checking = true; submitting = s.submitting + 1 }

unfoldable pub submit_end : Submitted → Sheet → Sheet
submit_end accepted s = record (enter processing s) {
  checking = false;
  submitting = s.submitting - 1;
}
submit_end (refused e) s = record s {
  submit_error = message_of e "Could not submit this payment for review.";
  checking = false;
  submitting = s.submitting - 1;
}

pub data Event : Type 0 where
  -- the timer of the poll, or the runner, asks
  asks : (requested_by_runner : Bool) → Event
  verified : Verified → Event
  submits : (trimmed : String) → Event
  submitted : Submitted → Event

-- An answer comes only to a call that was made. The form is shown while the payment waits, and its button
-- is off while something is checked.
unfoldable pub step : Event → Sheet → Sheet
step (asks by_runner) s = verify_begin by_runner s
step (verified v) s = if ltb 0 s.verifying then verify_end v s else s
step (submits trimmed) s =
    if is_waiting s.phase && not s.checking then submit_begin trimmed s else s
step (submitted r) s = if ltb 0 s.submitting then submit_end r s else s

unfoldable pub run : List Event → Sheet → Sheet
run [] s = s
run (e ∷ es) s = run es (step e s)

-- Whether the timers of the poll run
unfoldable pub polls : Sheet → Bool
polls s = not (is_over s.phase)

-- A checkout whose time is up, where no reference was submitted
unfoldable pub lapsed : Option ℕ → ℕ → Sheet → Bool
lapsed expires_at now s = elim (seconds_left expires_at now) [
  | none ↦ false
  | some n ↦ leb n 0 && is_waiting s.phase
]

unfoldable pub status_text : Option ℕ → ℕ → Sheet → String
status_text expires_at now s = elim s.phase [
  | confirmed ↦ "Payment confirmed"
  | failed ↦ "Payment failed"
  | waiting ↦
      if lapsed expires_at now s
      then "Time is up. Making a final payment check"
      else if ltb 0 s.failed_checks
      then "The payment is still waiting for review. Do not pay twice"
      else if s.checking
      then "Checking payment status"
      else "Waiting for payment"
  | processing ↦
      if ltb 0 s.failed_checks
      then "The payment is still waiting for review. Do not pay twice"
      else "Payment is processing"
]
