-- ===== src/Web/ScheduleEditor/Examples.antt =====
-- Tests of the schedule of an event.
use unity_runn.Prelude.{ℕ, ◌<◌, none, some, [], ◌∷◌, false, not, str_eq, All, ◌≡◌, refl}
use unity_runn.Exec.{ok}
use unity_runn.Web.Alerts.{no_alerts}
use unity_runn.Prelude.Sorting.{sort_by}
use unity_runn.Web.ScheduleEditor.{
  EventSchedule, ScheduleEditor, Script, ItemPayload, empty_item_draft, sorted_schedule,
  end_add_item,
}
use unity_runn.Web.ScheduleEditor.Numbers.{end_add_item-next}

abbrev script : Script
script = record {
  trim = λ t. t;
  decimal = λ n. "n";
  parse_int = λ t. 3;
  after = λ a b. not (str_eq a b);
  includes_t = λ t. false;
}

abbrev bibs : EventSchedule
bibs = record { id = "s1"; time = "05:00"; title = "Bibs"; description = none; sort_order = 2 }

abbrev warm_up : EventSchedule
warm_up = record {
  id = "s2";
  time = "05:30";
  title = "Warm up";
  description = none;
  sort_order = 1;
}

abbrev start_gun : EventSchedule
start_gun = record {
  id = "s3";
  time = "06:00";
  title = "Start";
  description = none;
  sort_order = 3;
}

abbrev editor : ScheduleEditor
editor = record {
  schedule = bibs ∷ warm_up ∷ [];
  editing_id = none;
  draft = empty_item_draft;
  create_draft = record empty_item_draft { title = "Start" };
  busy_id = none;
  deleting_id = some "s1";
  alerts = no_alerts;
}

abbrev start_payload : ItemPayload
start_payload = record { time = "06:00"; title = "Start"; description = ""; sort_order = 3 }

schedule-sorted : sorted_schedule script editor.schedule ≡ warm_up ∷ bibs ∷ []
unfolding sorted_schedule sort_by
schedule-sorted = refl

end_add_item-next_example :
    let t = end_add_item script editor.schedule (ok start_gun) editor in
    (n : ℕ) × (t.create_draft.sort_order ≡ script.decimal n)
    × All (λ (item : EventSchedule). item.sort_order < n) t.schedule
end_add_item-next_example = end_add_item-next script editor.schedule start_gun editor
