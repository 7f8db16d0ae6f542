-- ===== src/Web/ScheduleEditor.antt =====
-- frontend/src/components/admin/EventScheduleEditor.tsx: the schedule of an event. A call is split at its await, and
-- its end takes the schedule of the time of the call, which the handler has closed over. Texts and numbers are
-- parameters; the numbers of the order are natural, and times are ASCII.
pub mod Numbers
pub mod Overlaps
mod Examples
use Prim.Native.String
use Prim.Native.String.{slice}
use unity_runn.Prelude.{
  ℕ, suc, ◌+◌, String, Option, none, some, List, [], ◌∷◌, ◌++◌, Bool, true, false, not, ◌&&◌, ◌||◌,
  ◌==◌, ltb, truthy, str_eq, keep, map, if◌then◌else◌,
}
use unity_runn.Prelude.Sorting.{sort_by}
use unity_runn.Exec.{Failure, Result, ok, err}
use unity_runn.Mobile.Payment.{message_of}
use unity_runn.Web.Alerts.{Tone, error_tone, success_tone, ToastInput, Alerts, notify}

pub record EventSchedule : Type 0 where
  pub id : String
  pub time : String
  pub title : String
  pub description : Option String
  pub sort_order : ℕ

pub record ScheduleDraft : Type 0 where
  pub time : String
  pub title : String
  pub description : String
  pub sort_order : String

abbrev pub empty_item_draft : ScheduleDraft
empty_item_draft = record { time = "06:00"; title = ""; description = ""; sort_order = "1" }

-- `schedule` is the property of the component, which `onChange` sets.
pub record ScheduleEditor : Type 0 where
  pub schedule : List EventSchedule
  pub editing_id : Option String
  pub draft : ScheduleDraft
  pub create_draft : ScheduleDraft
  pub busy_id : Option String
  pub deleting_id : Option String
  pub alerts : Alerts

pub record Script : Type 0 where
  pub trim : String → String
  pub decimal : ℕ → String
  -- `Number.parseInt(s, 10) || 0`
  pub parse_int : String → ℕ
  -- `a.localeCompare(b) > 0`
  pub after : String → String → Bool
  -- `value.includes("T")`
  pub includes_t : String → Bool

-- The values of an item that are sent to the service
pub record ItemPayload : Type 0 where
  pub time : String
  pub title : String
  pub description : String
  pub sort_order : ℕ

abbrev toast : Tone → String → String → ScheduleEditor → ScheduleEditor
toast tone title message s = record s {
  alerts =
      (notify (record { tone = tone; title = some title; message = message; duration = none })
        s.alerts).1;
}

abbrev description_of : Option String → String
description_of none = ""
description_of (some d) = d

-- `Math.max(0, ...schedule.map((item) => item.sort_order))`
abbrev pub highest : List EventSchedule → ℕ
highest [] = 0
highest (item ∷ items) =
    let rest = highest items in if ltb rest item.sort_order then item.sort_order else rest

module _ (j : Script) where
  abbrev readable_time : String → String
  readable_time value = if j.includes_t value then slice value 11 16 else slice value 0 5

  unfoldable pub draft_from_item : EventSchedule → ScheduleDraft
  draft_from_item item = record {
    time = readable_time item.time;
    title = item.title;
    description = description_of item.description;
    sort_order = j.decimal item.sort_order;
  }

  unfoldable pub validate_item_draft : ScheduleDraft → Option String
  validate_item_draft draft =
      if not (truthy draft.time)
      then some "Choose a time."
      else if not (truthy (j.trim draft.title))
      then some "Add a schedule title."
      else none

  abbrev pub next_order : List EventSchedule → String
  next_order items = j.decimal (highest items + 1)

  abbrev pub next_draft : List EventSchedule → ScheduleDraft
  next_draft items = record empty_item_draft { sort_order = next_order items }

  abbrev is_after : EventSchedule → EventSchedule → Bool
  is_after a b =
      if ltb b.sort_order a.sort_order
      then true
      else if a.sort_order == b.sort_order
      then j.after a.time b.time
      else false

  unfoldable pub sorted_schedule : List EventSchedule → List EventSchedule
  sorted_schedule items = sort_by is_after items

  unfoldable pub begin_edit : EventSchedule → ScheduleEditor → ScheduleEditor
  begin_edit item s = record s {
    editing_id = some item.id;
    draft = draft_from_item item;
    deleting_id = none;
  }

  abbrev item_payload : ScheduleDraft → ItemPayload
  item_payload draft = record {
    time = draft.time;
    title = j.trim draft.title;
    description = j.trim draft.description;
    sort_order = j.parse_int draft.sort_order;
  }

  abbrev pub checked_call :
      (busy title : String)
      → Option String
      → ItemPayload
      → ScheduleEditor
      → Option ItemPayload × ScheduleEditor
  checked_call busy title (some problem) payload s = (none, toast error_tone title problem s)
  checked_call busy title none payload s = (some payload, record s { busy_id = some busy })

  unfoldable pub start_save_edit : String → ScheduleEditor → Option ItemPayload × ScheduleEditor
  start_save_edit id s =
      checked_call id "Schedule not saved" (validate_item_draft s.draft) (item_payload s.draft) s

  unfoldable pub start_add_item : ScheduleEditor → Option ItemPayload × ScheduleEditor
  start_add_item s =
      checked_call "new" "Schedule item not added" (validate_item_draft s.create_draft)
        (item_payload s.create_draft) s

  unfoldable pub end_add_item :
      (captured : List EventSchedule) → Result EventSchedule → ScheduleEditor → ScheduleEditor
  end_add_item captured (ok created) s =
      let next = captured ++ (created ∷ []) in
      record (toast success_tone "Schedule item added"
        (String.◌++◌ created.title " is now part of race day.")
        (record s { schedule = next; create_draft = next_draft next })) { busy_id = none }
  end_add_item captured (err e) s =
      record (toast error_tone "Schedule item not added"
        (message_of e "Could not add this schedule item.") s) { busy_id = none }

abbrev replaced_item : String → EventSchedule → EventSchedule → EventSchedule
replaced_item id updated item = if str_eq item.id id then updated else item

unfoldable pub end_save_edit :
    (captured : List EventSchedule)
    → String
    → Result EventSchedule
    → ScheduleEditor
    → ScheduleEditor
end_save_edit captured id (ok updated) s =
    record (toast success_tone "Schedule saved"
      (String.◌++◌ updated.title " is updated on the public event page.")
      (record s { schedule = map (replaced_item id updated) captured; editing_id = none })) {
        busy_id = none;
      }
end_save_edit captured id (err e) s =
    record (toast error_tone "Schedule not saved"
      (message_of e "Could not update this schedule item.") s) { busy_id = none }

abbrev is_deleting : Option String → String → Bool
is_deleting none id = false
is_deleting (some deleting) id = str_eq deleting id

-- The first press asks; the second one sends the call.
unfoldable pub start_remove_item : EventSchedule → ScheduleEditor → Bool × ScheduleEditor
start_remove_item item s =
    if is_deleting s.deleting_id item.id
    then (true, record s { busy_id = some item.id })
    else (false, record s { deleting_id = some item.id })

unfoldable pub end_remove_item :
    (captured : List EventSchedule)
    → EventSchedule
    → Result (Unit {0})
    → ScheduleEditor
    → ScheduleEditor
end_remove_item captured item (ok tt) s =
    record (toast success_tone "Schedule item removed"
      (String.◌++◌ item.title " was removed from race day.")
      (record s {
        schedule = keep (λ current. not (str_eq current.id item.id)) captured;
        deleting_id = none;
      })) { busy_id = none }
end_remove_item captured item (err e) s =
    record (toast error_tone "Schedule item not removed"
      (message_of e "Could not remove this schedule item.") s) { busy_id = none }
