-- ===== src/Mobile/Timeline/Order.antt =====
-- mobile/features/events/EventListScreen.tsx: the order of the events of the timeline.
use unity_runn.Prelude.{String, Bool, str_eq}
use unity_runn.Mobile.Timeline.{RunEvent, is_positive, Calendar, compare_events}

abbrev pub comes_after : Calendar → (ascending : Bool) → RunEvent → RunEvent → Bool
comes_after c ascending a b = is_positive (compare_events c ascending a b)

abbrev pub on_day : String → RunEvent → Bool
on_day date e = str_eq e.event_date date
