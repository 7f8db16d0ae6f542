-- ===== src/Web/Calendar/Examples.antt =====
-- Tests of the calendar of an event on concrete texts.
use unity_runn.Prelude.{ℕ, List, [], ◌∷◌, ◌++◌, true, false, ◌≡◌, refl}
use unity_runn.Web.Calendar.{
  escape_all, escape_newlines, escape_calendar_text, compact_date, compact_time, seconds, time_at,
  time_after_t, CalendarEvent, calendar_lines, described, details, build_event_calendar,
}
use unity_runn.Web.Calendar.Escapes.{unescape, with_line_feeds, unescape-escape_calendar_text}
use unity_runn.Web.Calendar.Lines.{are_lines, build_event_calendar-fit}

-- "a,\" and an end of a line
abbrev a_text : List ℕ
a_text = 97 ∷ 44 ∷ 92 ∷ 13 ∷ 10 ∷ []

-- "a\,\\\n"
escape-text : escape_calendar_text a_text ≡ 97 ∷ 92 ∷ 44 ∷ 92 ∷ 92 ∷ 92 ∷ 110 ∷ []
unfolding escape_calendar_text escape_all escape_newlines
escape-text = refl

-- "2026-12-01T" and "T05:30Z"
abbrev a_date : List ℕ
a_date = 50 ∷ 48 ∷ 50 ∷ 54 ∷ 45 ∷ 49 ∷ 50 ∷ 45 ∷ 48 ∷ 49 ∷ 84 ∷ []

abbrev a_time : List ℕ
a_time = 84 ∷ 48 ∷ 53 ∷ 58 ∷ 51 ∷ 48 ∷ 90 ∷ []

date-compact : compact_date a_date ≡ 50 ∷ 48 ∷ 50 ∷ 54 ∷ 49 ∷ 50 ∷ 48 ∷ 49 ∷ []
unfolding compact_date
date-compact = refl

time-compact : compact_time a_time ≡ 48 ∷ 53 ∷ 51 ∷ 48 ∷ 48 ∷ 48 ∷ []
unfolding compact_time time_at time_after_t seconds
time-compact = refl

abbrev race : CalendarEvent
race = record {
  id = 97 ∷ [];
  name = a_text;
  description = a_text;
  event_date = a_date;
  start_time = a_time;
  location = [];
}

unescape-escape_calendar_text_example :
    unescape false (escape_calendar_text a_text) ≡ 97 ∷ 44 ∷ 92 ∷ 10 ∷ []
unfolding with_line_feeds
unescape-escape_calendar_text_example = unescape-escape_calendar_text a_text

build_event_calendar-fit_example :
    are_lines (
      calendar_lines
        (compact_date a_date)
        (described a_text (details ++ (47 ∷ [])))
        race
        (47 ∷ [])
        (90 ∷ []))
    ≡ true
unfolding build_event_calendar compact_date
build_event_calendar-fit_example =
    build_event_calendar-fit (λ s. s) race (47 ∷ []) (90 ∷ []) _ refl refl refl
