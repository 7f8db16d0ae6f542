-- ===== src/Mobile/Payment/Examples.antt =====
-- The theorems of the payment's sheet at concrete inputs.
use unity_runn.Prelude.{◌≡◌, refl, [], ◌∷◌, true, false}
use unity_runn.Exec.{api}
use unity_runn.Mobile.Payment.{
  Sheet, status_pending, status_succeeded, processing, failed, open_sheet, asks, verified, answered,
  threw, submits, submitted, accepted, step, run, verify_begin, guards, verify_end, submit_begin,
  submit_end, verify_failed, payment_failure_message,
}

abbrev paid : Sheet
paid = open_sheet status_succeeded

none_waits : paid.submitting ≡ 0
unfolding open_sheet
none_waits = refl

-- The answer to a submission may come after a check has found the payment confirmed.
late_submission :
    (run
      (submits "REF-1" ∷ asks false ∷ verified (answered true false) ∷ submitted accepted ∷ [])
      (open_sheet status_pending)).phase
    ≡ processing
unfolding run step open_sheet verify_begin guards verify_end submit_begin submit_end
late_submission = refl

expired :
    (run
      (asks true
        ∷ verified
            (threw (api (record { message = "gone"; status = 409; code = "payment_expired" })))
        ∷ asks false
        ∷ [])
      (open_sheet status_pending)).phase
    ≡ failed
unfolding run step open_sheet verify_begin guards verify_end verify_failed payment_failure_message
expired = refl
