-- ===== src/Web/Calendar.antt =====
-- frontend/src/lib/eventCalendar.ts: the calendar file of an event. A text is the list of its UTF-16 code units; a
-- line is the list of its pieces, and the joining of lines is left out. `trim` and the text of the present
-- time are parameters.
pub mod Escapes
pub mod Lines
mod Examples
use unity_runn.Prelude.{
  ℕ, String, Option, none, some, List, [], ◌∷◌, ◌++◌, Bool, true, false, ◌&&◌, ◌==◌, if◌then◌else◌,
}
use unity_runn.Exec.{Failure, plain, Result, ok, err}
use unity_runn.Web.Slug.{between}

-- `replace(/c/g, "\\c")`
unfoldable pub escape_all : ℕ → List ℕ → List ℕ
escape_all mark [] = []
escape_all mark (c ∷ s) =
    let rest = escape_all mark s in if c == mark then 92 ∷ c ∷ rest else c ∷ rest

abbrev pub starts_line : List ℕ → Bool
starts_line [] = false
starts_line (c ∷ s) = c == 10

-- `replace(/\r?\n/g, "\\n")`: the return before a line feed goes with it.
unfoldable pub escape_newlines : List ℕ → List ℕ
escape_newlines [] = []
escape_newlines (c ∷ s) =
    let rest = escape_newlines s in
    if c == 10 then 92 ∷ 110 ∷ rest else if c == 13 && starts_line s then rest else c ∷ rest

unfoldable pub escape_calendar_text : List ℕ → List ℕ
escape_calendar_text value = escape_all 59 (escape_all 44 (escape_newlines (escape_all 92 value)))

abbrev pub is_digit : ℕ → Bool
is_digit c = between 48 57 c

abbrev pub are_digits : ℕ → ℕ → Bool
are_digits a b = is_digit a && is_digit b

-- `/^(\d{4})-(\d{2})-(\d{2})/`
unfoldable pub compact_date : List ℕ → List ℕ
compact_date (a ∷ b ∷ c ∷ d ∷ h ∷ e ∷ f ∷ k ∷ i ∷ j ∷ s) =
    if are_digits a b
      && (are_digits c d && (h == 45 && (are_digits e f && (k == 45 && are_digits i j))))
    then a ∷ b ∷ c ∷ d ∷ e ∷ f ∷ i ∷ j ∷ []
    else []
compact_date _ = []

-- `(?::(\d{2}))?`, and "00" without it
unfoldable pub seconds : List ℕ → List ℕ
seconds (k ∷ a ∷ b ∷ s) = if k == 58 && are_digits a b then a ∷ b ∷ [] else 48 ∷ 48 ∷ []
seconds _ = 48 ∷ 48 ∷ []

unfoldable pub time_at : List ℕ → Option (List ℕ)
time_at (a ∷ b ∷ k ∷ c ∷ d ∷ s) =
    if are_digits a b && (k == 58 && are_digits c d) then some (a ∷ b ∷ c ∷ d ∷ seconds s) else none
time_at _ = none

abbrev pub or_time : Option (List ℕ) → Option (List ℕ) → Option (List ℕ)
or_time none o = o
or_time (some t) o = some t

-- The first match behind a "T"
unfoldable pub time_after_t : List ℕ → Option (List ℕ)
time_after_t [] = none
time_after_t (c ∷ s) =
    let rest = time_after_t s in if c == 84 then or_time (time_at s) rest else rest

abbrev pub or_six : Option (List ℕ) → List ℕ
or_six none = 48 ∷ 54 ∷ 48 ∷ 48 ∷ 48 ∷ 48 ∷ []
or_six (some t) = t

unfoldable pub compact_time : List ℕ → List ℕ
compact_time value = or_six (or_time (time_at value) (time_after_t value))

pub record CalendarEvent : Type 0 where
  pub id : List ℕ
  pub name : List ℕ
  pub description : List ℕ
  pub event_date : List ℕ
  pub start_time : List ℕ
  pub location : List ℕ

pub data Piece : Type 0 where
  fixed : String → Piece
  value : List ℕ → Piece

-- "Event details: "
abbrev pub details : List ℕ
details = 69 ∷ 118 ∷ 101 ∷ 110 ∷ 116 ∷ 32 ∷ 100 ∷ 101 ∷ 116 ∷ 97 ∷ 105 ∷ 108 ∷ 115 ∷ 58 ∷ 32 ∷ []

-- `[text, link].filter(Boolean).join("\n\n")`, where the link is not empty
abbrev pub described : List ℕ → List ℕ → List ℕ
described [] link = link
described (c ∷ s) link = (c ∷ s) ++ (10 ∷ 10 ∷ link)

abbrev pub line : String → Piece → String → List Piece
line before p after = fixed before ∷ p ∷ fixed after ∷ []

abbrev pub calendar_lines :
    List ℕ → List ℕ → CalendarEvent → (event_url stamp : List ℕ) → List (List Piece)
calendar_lines date description e event_url stamp =
    (fixed "BEGIN:VCALENDAR" ∷ [])
    ∷ (fixed "VERSION:2.0" ∷ [])
    ∷ (fixed "PRODID:-//Unity Runn Club//Race Calendar//EN" ∷ [])
    ∷ (fixed "CALSCALE:GREGORIAN" ∷ [])
    ∷ (fixed "METHOD:PUBLISH" ∷ [])
    ∷ (fixed "BEGIN:VEVENT" ∷ [])
    ∷ line "UID:" (value (escape_calendar_text e.id)) "@unityrunn.club"
    ∷ line "DTSTAMP:" (value stamp) ""
    ∷ (fixed "DTSTART;TZID=Asia/Phnom_Penh:"
        ∷ value date
        ∷ fixed "T"
        ∷ value (compact_time e.start_time)
        ∷ [])
    ∷ (fixed "DURATION:PT3H" ∷ [])
    ∷ line "SUMMARY:" (value (escape_calendar_text e.name)) ""
    ∷ line "DESCRIPTION:" (value (escape_calendar_text description)) ""
    ∷ line "LOCATION:" (value (escape_calendar_text e.location)) ""
    ∷ line "URL:" (value event_url) ""
    ∷ (fixed "END:VEVENT" ∷ [])
    ∷ (fixed "END:VCALENDAR" ∷ [])
    ∷ []
    ∷ []

abbrev pub dated :
    (trim : List ℕ → List ℕ)
    → List ℕ
    → CalendarEvent
    → (event_url stamp : List ℕ) → Result (List (List Piece))
dated trim [] e event_url stamp = err (plain "This event does not have a valid race date.")
dated trim (c ∷ date) e event_url stamp = ok (
    calendar_lines (c ∷ date) (described (trim e.description) (details ++ event_url)) e event_url
      stamp)

unfoldable pub build_event_calendar :
    (trim : List ℕ → List ℕ)
    → CalendarEvent
    → (event_url stamp : List ℕ) → Result (List (List Piece))
build_event_calendar trim e event_url stamp =
    dated trim (compact_date e.event_date) e event_url stamp
