-- ===== src/Web/Dashboard.antt =====
-- frontend/src/pages/dashboard.tsx: the races of a runner. A call is split at its await; the reading of times, the
-- present day and the drawing of codes are parameters.
pub mod Entries
pub mod Featured
pub mod Endings
mod Examples
use Prim.Native.String
use unity_runn.Prelude.{
  ℕ, String, Option, none, some, List, [], ◌∷◌, ◌++◌, Bool, true, false, not, ◌&&◌, ◌||◌, ltb,
  truthy, str_eq, or_else, is_some, keep, any, if◌then◌else◌,
}
use unity_runn.Prelude.Sorting.{sort_by}
use unity_runn.Exec.{Failure, Result, ok, err}
use unity_runn.Mobile.Payment.{message_of}
use unity_runn.Web.Alerts.{Tone, success_tone, ToastInput, Alerts, notify}
use unity_runn.Web.Slug.{strip, collapse, is_unsafe, hyphen}

pub record Race : Type 0 where
  pub id : String
  pub slug : String
  pub name : String
  pub event_date : String

pub record Entry : Type 0 where
  pub id : String
  pub registration_number : String
  pub event_id : String
  pub status : String
  pub created_at : String
  pub checked_in_at : Option String

pub record Dashboard : Type 0 where
  pub user : Option String
  pub registrations : List Entry
  pub events : List Race
  pub loading : Bool
  pub error : Option String
  pub open_ticket_id : Option String
  pub qr_by_reg_id : List (String × String)
  pub qr_loading_id : Option String
  pub ticket_downloading_id : Option String
  pub payment : Option String
  pub payment_event_name : String
  pub payment_restart_href : Option String
  pub payment_loading_id : Option String
  pub cancel_confirm_id : Option String
  pub cancelling_id : Option String
  pub pushed : List String
  pub alerts : Alerts

pub record Days : Type 0 where
  -- `+new Date(a) - +new Date(b) > 0`
  pub later : String → String → Bool
  -- `new Date(date) >= startOfToday`
  pub since_today : String → Bool

abbrev pub is_pending : Entry → Bool
is_pending reg = str_eq reg.status "PENDING"

abbrev pub is_confirmed : Entry → Bool
is_confirmed reg = str_eq reg.status "CONFIRMED"

abbrev checked_in : Option String → Bool
checked_in none = false
checked_in (some at) = truthy at

abbrev pub can_withdraw : Entry → Bool
can_withdraw reg = not (checked_in reg.checked_in_at) && (is_pending reg || is_confirmed reg)

abbrev pub else_option {ℓ} : {A : Type ℓ} → Option A → Option A → Option A
else_option none o = o
else_option (some a) o = some a

-- `eventById.get(id)`: of events with one id the last counts.
abbrev pub event_by_id : String → List Race → Option Race
event_by_id id [] = none
event_by_id id (e ∷ es) = else_option (event_by_id id es) (if str_eq e.id id then some e else none)

abbrev pub Dated : Type 0
Dated = Entry × Race

abbrev dated_entry : Entry → Option Race → List Dated → List Dated
dated_entry reg none rest = rest
dated_entry reg (some e) rest = if truthy e.event_date then (reg, e) ∷ rest else rest

abbrev pub with_events : List Race → List Entry → List Dated
with_events events [] = []
with_events events (reg ∷ regs) =
    dated_entry reg (event_by_id reg.event_id events) (with_events events regs)

-- `list.find(p)` and `list.filter(p).at(-1)`
abbrev pub find_first {ℓ} : {A : Type ℓ} → (A → Bool) → List A → Option A
find_first p [] = none
find_first p (x ∷ xs) = if p x then some x else find_first p xs

abbrev pub find_last {ℓ} : {A : Type ℓ} → (A → Bool) → List A → Option A
find_last p [] = none
find_last p (x ∷ xs) = else_option (find_last p xs) (if p x then some x else none)

abbrev pub entry_of : Option Dated → Option Entry
entry_of none = none
entry_of (some (reg, e)) = some reg

abbrev pub head_of : List Entry → Option Entry
head_of [] = none
head_of (reg ∷ regs) = some reg

abbrev pub active_entries : List Entry → List Entry
active_entries regs = keep (λ reg. is_pending reg || is_confirmed reg) regs

abbrev pub is_featured : Option Entry → Entry → Bool
is_featured none reg = false
is_featured (some featured) reg = str_eq reg.id featured.id

module _ (j : Days) where
  unfoldable pub dated_entries : List Race → List Entry → List Dated
  dated_entries events regs =
      sort_by (λ (a : Dated) (b : Dated). j.later a.1.event_date b.1.event_date)
        (with_events events (active_entries regs))

  unfoldable pub featured_registration : List Race → List Entry → Option Entry
  featured_registration events regs =
      let dated = dated_entries events regs in
      else_option (entry_of (find_first (λ (d : Dated). is_pending d.0) dated)) (
        else_option
          (entry_of
            (find_first (λ (d : Dated). is_confirmed d.0 && j.since_today d.1.event_date) dated))
          (else_option (entry_of (find_last (λ (d : Dated). is_confirmed d.0) dated))
            (else_option (head_of (active_entries regs)) (head_of regs))))

  abbrev rank : Entry → ℕ
  rank reg = if is_pending reg then 0 else if is_confirmed reg then 1 else 2

  abbrev date_or : Option Race → String → String
  date_or none created_at = created_at
  date_or (some e) created_at = if truthy e.event_date then e.event_date else created_at

  abbrev date_of : List Race → Entry → String
  date_of events reg = date_or (event_by_id reg.event_id events) reg.created_at

  -- Whether the comparison of two entries is positive
  abbrev pub comes_after : List Race → Entry → Entry → Bool
  comes_after events a b =
      if ltb (rank b) (rank a)
      then true
      else if ltb (rank a) (rank b)
      then false
      else j.later (date_of events a) (date_of events b)

  unfoldable pub others : List Race → List Entry → List Entry
  others events regs =
      let featured = featured_registration events regs in
      sort_by (comes_after events) (keep (λ reg. not (is_featured featured reg)) regs)

abbrev success : String → String → Dashboard → Dashboard
success title message s = record s {
  alerts =
      (notify
        (record { tone = success_tone; title = some title; message = message; duration = none })
        s.alerts).1;
}

-- `getMe().catch(() => null)`
unfoldable pub end_me : Option String → Dashboard → Dashboard
end_me none s = record s { pushed = "/auth/login?redirect=/dashboard" ∷ s.pushed; loading = false }
end_me (some role) s = record s { user = some role }

unfoldable pub end_lists : Result (Option (List Entry) × Option (List Race)) → Dashboard → Dashboard
end_lists (ok (regs, evts)) s = record s {
  registrations = or_else regs [];
  events = or_else evts [];
  loading = false;
}
end_lists (err e) s = record s {
  error = some (message_of e "Failed to load your races");
  loading = false;
}

-- The flags of the address, which are taken off it afterwards: whether a toast is shown.
unfoldable pub show_flags :
    (ready : Bool) → (payment registration : Option String) → Dashboard → Bool × Dashboard
show_flags ready payment registration s =
    let paid = str_eq (or_else payment "") "confirmed" in
    let registered = str_eq (or_else registration "") "confirmed" in
    if not ready || (not paid && not registered)
    then (false, s)
    else if paid
    then (
      true,
      success "Payment confirmed"
          "Your place is secured. Your ticket and check-in QR are ready below." s,
    )
    else (
      true,
      success "You are in" "Your entry is confirmed. Your ticket and check-in QR are ready below."
          s,
    )

abbrev pub handle_logout : Dashboard → Dashboard
handle_logout s = record s { pushed = "/auth/login" ∷ s.pushed }

abbrev event_name : Option Race → String
event_name none = "Your race entry"
event_name (some e) = if truthy e.name then e.name else "Your race entry"

abbrev restart_href : Option Race → Option String
restart_href none = none
restart_href (some e) = some (String.◌++◌ "/events/" (String.◌++◌ e.slug "/register"))

unfoldable pub start_resume : Entry → Dashboard → Dashboard
start_resume reg s = record s { payment_loading_id = some reg.id; error = none }

-- The events are those of the time of the call.
unfoldable pub end_resume : List Race → Entry → Result String → Dashboard → Dashboard
end_resume events reg (ok checkout) s =
    let event = event_by_id reg.event_id events in
    record s {
      payment_event_name = event_name event;
      payment_restart_href = restart_href event;
      payment = some checkout;
      payment_loading_id = none;
    }
end_resume events reg (err e) s = record s {
  error = some (message_of e "Could not reopen this payment");
  payment_loading_id = none;
}

unfoldable pub start_cancel_entry : Entry → Dashboard → Dashboard
start_cancel_entry reg s = record s { cancelling_id = some reg.id; error = none }

-- The answer to the cancellation; the list is asked for only when it succeeded.
unfoldable pub end_cancel_entry : Result (Unit {0}) → Dashboard → Bool × Dashboard
end_cancel_entry (ok tt) s = (true, record s { cancel_confirm_id = none })
end_cancel_entry (err e) s = (
  false,
  record s { error = some (message_of e "Could not withdraw this entry"); cancelling_id = none },
)

-- The list that was asked for, if the call did not fail
abbrev pub relisted : Option (List Entry) → Dashboard → Dashboard
relisted none s = s
relisted (some regs) s = record s { registrations = regs }

unfoldable pub end_cancel_entry_list : Option (List Entry) → Dashboard → Dashboard
end_cancel_entry_list regs s =
    record (success "Entry withdrawn" "Your place has been released back to the race."
      (relisted regs s)) { cancelling_id = none }

abbrev pub start_finish : Dashboard → Dashboard
start_finish s = record s { payment = none }

abbrev same_id : Option String → String → Bool
same_id none id = false
same_id (some open_) id = str_eq open_ id

-- The registration number whose code is drawn, if a ticket is opened
unfoldable pub toggle_qr : Entry → Dashboard → Option String × Dashboard
toggle_qr reg s =
    if same_id s.open_ticket_id reg.id then (none, record s { open_ticket_id = none }) else (
      some reg.registration_number,
      record s { open_ticket_id = some reg.id; qr_loading_id = some reg.id },
    )

unfoldable pub end_qr : Entry → Result String → Dashboard → Dashboard
end_qr reg (ok svg) s = record s {
  qr_by_reg_id = (reg.id, svg) ∷ s.qr_by_reg_id;
  qr_loading_id = none;
}
end_qr reg (err e) s = record s {
  error = some (message_of e "Could not load this ticket");
  open_ticket_id = none;
  qr_loading_id = none;
}

abbrev pub qr_of : String → List (String × String) → String
qr_of id [] = ""
qr_of id ((k, svg) ∷ rest) = if str_eq k id then svg else qr_of id rest

-- Whether a download begins
unfoldable pub start_download : (ticket : Bool) → Entry → Dashboard → Bool × Dashboard
start_download ticket reg s =
    if not ticket
      || (not (truthy (qr_of reg.id s.qr_by_reg_id)) || truthy (or_else s.ticket_downloading_id ""))
    then (false, s)
    else (true, record s { ticket_downloading_id = some reg.id; error = none })

abbrev export_message : Failure → String
export_message e =
    String.◌++◌ "Could not save the full ticket: " (message_of e "Unknown export error")

unfoldable pub end_download : Result (Unit {0}) → Dashboard → Dashboard
end_download (ok tt) s = record s { ticket_downloading_id = none }
end_download (err e) s = record s { error = some (export_message e); ticket_downloading_id = none }
