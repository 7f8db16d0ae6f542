-- ===== src/Mobile/DateValue/Examples.antt =====
-- Tests of mobile/components/dateValue.ts on concrete dates.
use unity_runn.Prelude.{ℕ, ◌≡◌, refl, List, [], ◌∷◌, none, some, ltb, if◌then◌else◌}
use unity_runn.Mobile.DateValue.{
  Dates, parse_date_value, format_date_value, checked, checked_fields, fields, digits,
}

abbrev at_most : ℕ → ℕ → ℕ
at_most bound n = if ltb bound n then bound else n

-- Triples of a year, a month and a day
abbrev triples : Dates (ℕ × ℕ × ℕ)
triples = record {
  make = λ y m d. (y, m, d);
  get_full_year = λ d. d.0;
  get_month = λ d. at_most 12 d.1;
  get_date = λ d. at_most 31 d.2;
}

-- "2001-02-09"
abbrev february : List ℕ
february = 50 ∷ 48 ∷ 48 ∷ 49 ∷ 45 ∷ 48 ∷ 50 ∷ 45 ∷ 48 ∷ 57 ∷ []

format-february : format_date_value triples (2001, 2, 9) ≡ february
unfolding format_date_value digits
format-february = refl

parse-february : parse_date_value triples february ≡ some (2001, 2, 9)
unfolding parse_date_value checked_fields checked fields
parse-february = refl

-- "2001-19-09" names no month.
parse-nineteenth :
    parse_date_value triples (50 ∷ 48 ∷ 48 ∷ 49 ∷ 45 ∷ 49 ∷ 57 ∷ 45 ∷ 48 ∷ 57 ∷ []) ≡ none
unfolding parse_date_value checked_fields checked fields
parse-nineteenth = refl
