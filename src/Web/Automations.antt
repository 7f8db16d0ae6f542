-- ===== src/Web/Automations.antt =====
-- frontend/src/components/admin/EventAutomationEditor.tsx: the messages to the runners of an event. The clock,
-- `trim`, the reading of times and the texts that notifications show are parameters; a call is split at its
-- await.
pub mod Saves
mod Examples
use unity_runn.Prelude.{
  ℕ, suc, ◌+◌, String, Option, none, some, List, [], ◌∷◌, Bool, true, false, not, ◌&&◌, ◌||◌, ◌==◌,
  ltb, truthy, str_eq, is_some, if◌then◌else◌, map,
}
use unity_runn.Exec.{Failure, Result, ok, err}
use unity_runn.Mobile.Payment.{message_of}
use unity_runn.Web.Alerts.{Tone, error_tone, success_tone, ToastInput, Alerts, notify}

pub record ComposerDraft : Type 0 where
  pub name : String
  pub message : String
  pub send_at : String

abbrev pub empty_draft : ComposerDraft
empty_draft = record { name = ""; message = ""; send_at = "" }

pub record EventAutomation : Type 0 where
  pub id : String
  pub name : String
  pub message : String
  pub status : String
  pub send_at : Option String

pub record SchedulePreview : Type 0 where
  pub item : Option EventAutomation
  pub draft : ComposerDraft

pub record Editor : Type 0 where
  pub items : List EventAutomation
  pub loading : Bool
  pub busy : Bool
  pub cancelling : Option String
  pub cancel_candidate : Option EventAutomation
  pub editing : Option EventAutomation
  pub preview : Option SchedulePreview
  pub draft : ComposerDraft
  pub local_mutation : ℕ
  pub alerts : Alerts

pub record Clock : Type 0 where
  pub trim : String → String
  -- `new Date(value).getTime() < Date.now()`
  pub is_past : String → Bool
  -- `new Date(value).toISOString()`, where the time is valid
  pub iso : String → String
  -- `toLocalInput`, of an automation's time and of the time for a retry
  pub to_local_input : String → String
  pub retry_at : String

abbrev pub notice : Tone → String → String → Editor → Editor
notice tone title message s = record s {
  alerts =
      (notify (record { tone = tone; title = some title; message = message; duration = none })
        s.alerts).1;
}

-- The load keeps the number of changes that were made before it.
abbrev pub start_load : Editor → ℕ
start_load s = s.local_mutation

unfoldable pub end_load : (revision : ℕ) → Result (List EventAutomation) → Editor → Editor
end_load revision (ok loaded) s =
    record (if revision == s.local_mutation then record s { items = loaded } else s) {
      loading = false;
    }
end_load revision (err e) s =
    record (notice error_tone "Transmissions unavailable"
      (message_of e "Could not load automations.") s) { loading = false }

abbrev pub reset_composer : Editor → Editor
reset_composer s = record s { editing = none; draft = empty_draft }

-- The title and the message of what is wrong with a draft
unfoldable pub draft_problem :
    Clock → (needs_time : Bool) → ComposerDraft → Option (String × String)
draft_problem j needs_time d =
    if not (truthy (j.trim d.name)) || not (truthy (j.trim d.message))
    then some ("Transmission incomplete", "Add a title and runner message.")
    else if needs_time && not (truthy d.send_at)
    then some ("Choose a send time", "Scheduled transmissions need a future date and time.")
    else if needs_time && j.is_past d.send_at
    then some ("Choose a future time", "The send time has already passed.")
    else none

abbrev pub shown : Option (String × String) → Editor → Editor
shown none s = s
shown (some (title, message)) s = notice error_tone title message s

unfoldable pub validate_draft : Clock → (needs_time : Bool) → Editor → Bool × Editor
validate_draft j needs_time s =
    let problem = draft_problem j needs_time s.draft in (not (is_some problem), shown problem s)

-- What is sent, and the automation that it updates, if it creates none
pub record Payload : Type 0 where
  pub name : String
  pub message : String
  pub send_at : Option String
  pub target : Option EventAutomation

unfoldable pub start_persist : Clock → (schedule : Bool) → Editor → Payload × Editor
start_persist j schedule s = (
  record {
    name = j.trim s.draft.name;
    message = j.trim s.draft.message;
    send_at = if schedule then some (j.iso s.draft.send_at) else none;
    target = s.editing;
  },
  record s { busy = true; local_mutation = suc s.local_mutation },
)

abbrev pub saved_items :
    Option EventAutomation → EventAutomation → List EventAutomation → List EventAutomation
saved_items none saved items = saved ∷ items
saved_items (some old) saved items =
    map (λ entry. if str_eq entry.id saved.id then saved else entry) items

abbrev saved_title : (schedule is_edit : Bool) → String
saved_title true is_edit = if is_edit then "Transmission rescheduled" else "Transmission scheduled"
saved_title false is_edit = if is_edit then "Draft updated" else "Draft saved"

abbrev saved_message : (schedule : Bool) → String
saved_message true = "It will be queued for confirmed runners at the selected time."
saved_message false = "The transmission remains inactive until you schedule it."

-- `editing` is the one of the time of the call.
unfoldable pub end_persist :
    (schedule : Bool) → Option EventAutomation → Result EventAutomation → Editor → Editor
end_persist schedule editing (ok saved) s =
    let t = reset_composer (record s { items = saved_items editing saved s.items }) in
    record (notice success_tone (saved_title schedule (is_some editing)) (saved_message schedule)
      t) { preview = none; busy = false }
end_persist schedule editing (err e) s =
    record (notice error_tone "Transmission not saved"
      (message_of e "Could not save this automation.") s) { busy = false }

abbrev pub sent_draft : Clock → Bool × Editor → Option Payload × Editor
sent_draft j (true, s) = let started = start_persist j false s in (some started.0, started.1)
sent_draft j (false, s) = (none, s)

-- The buttons of the form are disabled while the list is loaded and a message is saved.
unfoldable pub save_draft : Clock → Editor → Option Payload × Editor
save_draft j s = if s.busy || s.loading then (none, s) else sent_draft j (validate_draft j false s)

unfoldable pub review_schedule : Clock → Editor → Editor
review_schedule j s =
    let checked = validate_draft j true s in
    if s.busy || s.loading
    then s
    else if checked.0
    then record checked.1 { preview = some record { item = s.editing; draft = s.draft } }
    else checked.1

abbrev time_of : Clock → Bool → Option String → String
time_of j true at = j.retry_at
time_of j false none = ""
time_of j false (some at) = if truthy at then j.to_local_input at else ""

unfoldable pub start_editing : Clock → EventAutomation → (retry : Bool) → Editor → Editor
start_editing j item retry s = record s {
  editing = some item;
  draft = record {
    name = item.name;
    message = item.message;
    send_at = time_of j retry item.send_at;
  };
}

abbrev cancel_item : String → EventAutomation → EventAutomation
cancel_item id entry = if str_eq entry.id id then record entry { status = "CANCELLED" } else entry

abbrev edits : Option EventAutomation → String → Bool
edits none id = false
edits (some item) id = str_eq item.id id

unfoldable pub end_cancel : String → Result (Unit {0}) → Editor → Editor
end_cancel id (ok tt) s =
    let t = record s { items = map (cancel_item id) s.items } in
    record (notice success_tone "Transmission cancelled"
      "It will remain in the timeline as an audit record."
      (if edits s.editing id then reset_composer t else t)) {
        cancel_candidate = none;
        cancelling = none;
      }
end_cancel id (err e) s =
    record (notice error_tone "Could not cancel" (message_of e "Try again.") s) {
      cancelling = none;
    }
