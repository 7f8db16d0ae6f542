-- ===== src/Web/Calendar/Lines.antt =====
-- frontend/src/lib/eventCalendar.ts: the lines of a calendar.
use unity_runn.Prelude.{
  ℕ, Option, none, some, List, [], ◌∷◌, ◌++◌, Bool, true, not, ◌&&◌, ◌==◌, ◌≡◌, refl, sym, ap, ◌∙◌,
  arith, inl, inr, Bool-cases,
}
use unity_runn.Exec.{Result, ok, err}
use unity_runn.Web.Slug.Forms.{every}
use unity_runn.Web.Calendar.{
  is_digit, seconds, compact_date, time_at, or_time, time_after_t, or_six, compact_time,
  CalendarEvent, Piece, fixed, value, described, details, calendar_lines, dated,
  build_event_calendar,
}
use unity_runn.Web.Calendar.Escapes.{escape_calendar_text-every}

abbrev pub no_feed : List ℕ → Bool
no_feed s = every (λ c. not (c == 10)) s

-- Whether the values of a line and of all lines hold no line feed
abbrev pub is_one_line : List Piece → Bool
is_one_line [] = true
is_one_line (fixed t ∷ ps) = is_one_line ps
is_one_line (value v ∷ ps) = no_feed v && is_one_line ps

abbrev pub are_lines : List (List Piece) → Bool
are_lines [] = true
are_lines (l ∷ ls) = is_one_line l && are_lines ls

abbrev digits_or_none : Option (List ℕ) → Bool
digits_or_none none = true
digits_or_none (some t) = every is_digit t

seconds-every : (s : List ℕ) → every is_digit (seconds s) ≡ true
unfolding seconds
seconds-every (k ∷ a ∷ b ∷ s) = ground arith
seconds-every _ = refl

time_at-every : (s : List ℕ) → digits_or_none (time_at s) ≡ true
unfolding time_at
time_at-every (a ∷ b ∷ k ∷ c ∷ d ∷ s) = ground (arith, seconds-every s)
time_at-every _ = refl

or_time-every :
    (a b : Option (List ℕ))
    → digits_or_none a ≡ true
    → digits_or_none b ≡ true
    → digits_or_none (or_time a b) ≡ true
or_time-every none b h k = k
or_time-every (some t) b h k = h

time_after_t-every : (s : List ℕ) → digits_or_none (time_after_t s) ≡ true
unfolding time_after_t
time_after_t-every [] = refl
time_after_t-every (c ∷ s) = elim (Bool-cases (c == 84)) [
  | inl here ↦
      rw here (or_time-every (time_at s) (time_after_t s) (time_at-every s) (time_after_t-every s))
  | inr on ↦ rw on (time_after_t-every s)
]

or_six-every : (o : Option (List ℕ)) → digits_or_none o ≡ true → every is_digit (or_six o) ≡ true
or_six-every none h = refl
or_six-every (some t) h = h

compact_time-every : (s : List ℕ) → every is_digit (compact_time s) ≡ true
unfolding compact_time
compact_time-every s =
    or_six-every (or_time (time_at s) (time_after_t s))
      (or_time-every (time_at s) (time_after_t s) (time_at-every s) (time_after_t-every s))

compact_date-every : (s : List ℕ) → every is_digit (compact_date s) ≡ true
unfolding compact_date
compact_date-every (a ∷ b ∷ c ∷ d ∷ h ∷ e ∷ f ∷ k ∷ i ∷ j ∷ s) = ground arith
compact_date-every _ = refl

digits-no_feed : (s : List ℕ) → every is_digit s ≡ true → no_feed s ≡ true
digits-no_feed [] h = refl
digits-no_feed (c ∷ s) h = ground (arith, digits-no_feed s)

calendar_lines-fit :
    (date description : List ℕ) (e : CalendarEvent) (event_url stamp : List ℕ)
    → no_feed date ≡ true
    → no_feed event_url ≡ true
    → no_feed stamp ≡ true
    → are_lines (calendar_lines date description e event_url stamp) ≡ true
calendar_lines-fit date description e event_url stamp dated linked stamped =
    rw
      (
        escape_calendar_text-every e.id,
        stamped,
        dated,
        digits-no_feed (compact_time e.start_time) (compact_time-every e.start_time),
        escape_calendar_text-every e.name,
        escape_calendar_text-every description,
        escape_calendar_text-every e.location,
        linked,
      )
      refl

abbrev lines_of : Result (List (List Piece)) → List (List Piece)
lines_of (ok ls) = ls
lines_of (err e) = []

dated-fit :
    (trim : List ℕ → List ℕ) (date : List ℕ) (e : CalendarEvent) (event_url stamp : List ℕ)
    (lines : List (List Piece))
    → no_feed date ≡ true
    → no_feed event_url ≡ true
    → no_feed stamp ≡ true
    → dated trim date e event_url stamp ≡ ok lines
    → are_lines lines ≡ true
dated-fit trim [] e event_url stamp lines short linked stamped built = ground (arith, built)
dated-fit trim (c ∷ date) e event_url stamp lines short linked stamped built =
    sym (ap (λ r. are_lines (lines_of r)) built)
    ∙ calendar_lines-fit (c ∷ date) (described (trim e.description) (details ++ event_url)) e
        event_url stamp short linked stamped

-- In a calendar that is built, for an address and a time of writing without line feeds, no value holds a line
-- feed, whatever the event's id, name, description, date, start and place are: none can start a line of its own.
pub build_event_calendar-fit :
    (trim : List ℕ → List ℕ) (e : CalendarEvent) (event_url stamp : List ℕ)
    (lines : List (List Piece))
    → no_feed event_url ≡ true
    → no_feed stamp ≡ true
    → build_event_calendar trim e event_url stamp ≡ ok lines
    → are_lines lines ≡ true
unfolding build_event_calendar
build_event_calendar-fit trim e event_url stamp lines linked stamped built =
    dated-fit trim (compact_date e.event_date) e event_url stamp lines
      (digits-no_feed (compact_date e.event_date) (compact_date-every e.event_date)) linked stamped
      built
