-- ===== src/Mobile/Timeline/Examples.antt =====
-- Tests of the timeline of the events.
use mathlib.Core.List.{Perm}
use unity_runn.Prelude.{
  AreDistinct, ℕ, String, none, some, List, [], ◌∷◌, true, false, str_eq, ltb, All, if◌then◌else◌,
  ◌≡◌, refl,
}
use unity_runn.Prelude.Sorting.{sort_by}
use unity_runn.Mobile.Timeline.{
  RunEvent, month, event, ListPage, Sign, negative, zero_sign, positive, Calendar, event_month_key,
  heading_key, sorted_events, group_events, build_timeline, list_rows, flat_pages,
}
use unity_runn.Mobile.Timeline.Months.{months_of, in_month}
use unity_runn.Mobile.Timeline.Sections.{is_empty, in_months, sections, build_timeline-sections}
use unity_runn.Mobile.Timeline.Rows.{ids, find_row, last_event, list_rows-last_event}

-- The place of a date among the dates of the tests
abbrev place : String → ℕ
place date = if str_eq date "2026-09-05" then 0 else if str_eq date "2026-09-20" then 1 else 2

abbrev sign_of : ℕ → ℕ → Sign
sign_of a b = if ltb a b then negative else if ltb b a then positive else zero_sign

abbrev calendar : Calendar
calendar = record {
  locale_compare = λ a b. sign_of (place a) (place b);
  event_month_label = λ date. date;
}

abbrev hill : RunEvent
hill = record { id = "hill"; event_date = "2026-10-03" }

abbrev dawn : RunEvent
dawn = record { id = "dawn"; event_date = "2026-09-05" }

abbrev night : RunEvent
night = record { id = "night"; event_date = "2026-09-20" }

abbrev late_hill : RunEvent
late_hill = record { id = "hill"; event_date = "2026-10-10" }

abbrev rows_shown : List RunEvent
rows_shown = hill ∷ night ∷ dawn ∷ []

ahead-timeline :
    build_timeline calendar rows_shown true
    ≡ some (
        month "month-2026-09" "2026-09-05" 2
        ∷ event "dawn" dawn 12
        ∷ event "night" night 16
        ∷ month "month-2026-10" "2026-10-03" 1
        ∷ event "hill" hill 12
        ∷ [])
unfolding build_timeline event_month_key heading_key sorted_events sort_by group_events
ahead-timeline = refl

build_timeline-sections_example :
    let sorted = sorted_events calendar false rows_shown in
    let months = months_of calendar sorted in
    (build_timeline calendar rows_shown false ≡ some (sections calendar months sorted))
    × All (λ k. is_empty (in_month calendar k sorted) ≡ false) months
    × AreDistinct months
    × Perm (in_months calendar months sorted) rows_shown
build_timeline-sections_example = build_timeline-sections calendar rows_shown false

abbrev pages_sent : List ListPage
pages_sent =
    record { events = some (hill ∷ night ∷ []); total = 3 }
    ∷ record { events = none; total = 3 }
    ∷ record { events = some (dawn ∷ late_hill ∷ []); total = 3 }
    ∷ []

rows-listed : list_rows pages_sent ≡ late_hill ∷ night ∷ dawn ∷ []
unfolding list_rows
rows-listed = refl

list_rows-last_event_example :
    AreDistinct (ids (list_rows pages_sent))
    × ((id : String) → find_row id (list_rows pages_sent) ≡ last_event id (flat_pages pages_sent))
list_rows-last_event_example = list_rows-last_event pages_sent
