-- ===== src/Web/Dashboard/Endings.antt =====
-- frontend/src/pages/dashboard.tsx: how leaving a race ends.
use unity_runn.Prelude.{Option, none, some, List, Bool, true, false, or_else, ◌≡◌, refl}
use unity_runn.Exec.{Result, ok, err}
use unity_runn.Mobile.Payment.{message_of}
use unity_runn.Web.Dashboard.{
  Entry, Dashboard, start_cancel_entry, end_cancel_entry, end_cancel_entry_list,
}

abbrev pub listed_cancel : Bool × Dashboard → Option (List Entry) → Dashboard
listed_cancel (true, s) regs = end_cancel_entry_list regs s
listed_cancel (false, s) regs = s

-- `cancelEntry`, with the answers to the cancellation and to the list
unfoldable pub cancel_entry :
    Entry → Result (Unit {0}) → Option (List Entry) → Dashboard → Dashboard
cancel_entry reg r regs s = listed_cancel (end_cancel_entry r (start_cancel_entry reg s)) regs

abbrev pub Left : Result (Unit {0}) → Option (List Entry) → (s t : Dashboard) → Type 0
Left (ok tt) regs s t =
    (t.registrations ≡ or_else regs s.registrations)
    × (t.cancel_confirm_id ≡ none)
    × (t.error ≡ none)
Left (err e) regs s t =
    (t.registrations ≡ s.registrations)
    × (t.cancel_confirm_id ≡ s.cancel_confirm_id)
    × (t.error ≡ some (message_of e "Could not withdraw this entry"))
    × (t.alerts ≡ s.alerts)

-- What leaving a race leaves, whatever the service answers: no cancellation is going on. When it was accepted the
-- question is closed, no error is shown, and the entries are those of the new list, or the old ones if the list did
-- not come; when it was refused, the entries, the question and the toasts stay, and the error is shown.
pub cancel_entry-ends :
    (reg : Entry) (r : Result (Unit {0})) (regs : Option (List Entry)) (s : Dashboard)
    → ((cancel_entry reg r regs s).cancelling_id ≡ none) × Left r regs s (cancel_entry reg r regs s)
unfolding cancel_entry start_cancel_entry end_cancel_entry end_cancel_entry_list
cancel_entry-ends reg (ok tt) none s = (refl, (refl, refl, refl))
cancel_entry-ends reg (ok tt) (some regs) s = (refl, (refl, refl, refl))
cancel_entry-ends reg (err e) regs s = (refl, (refl, refl, refl, refl))
