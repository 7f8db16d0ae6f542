-- ===== src/Mobile/DateValue.antt =====
-- mobile/components/dateValue.ts: birth dates as texts. A text is the list of its characters' codes, and the
-- class `Date` is a parameter.
pub mod RoundTrip
mod Examples
use unity_runn.Prelude.{
  ℕ, zero, suc, ◌+◌, ◌-◌, ◌*◌, ◌/◌, ◌%◌, List, [], ◌∷◌, ◌++◌, Option, none, some, Bool, true, false,
  ◌&&◌, ltb, leb, ◌==◌, if◌then◌else◌,
}

-- `new Date(year, month - 1, day, 12)`, and the getters; `get_month` is `getMonth() + 1`.
pub record Dates (D : Type 0) : Type 0 where
  pub make : (year month day : ℕ) → D
  pub get_full_year : D → ℕ
  pub get_month : D → ℕ
  pub get_date : D → ℕ

abbrev pub is_digit : ℕ → Bool
is_digit c = leb 48 c && leb c 57

abbrev pub hyphen : ℕ
hyphen = 45

abbrev pub number2 : ℕ → ℕ → ℕ
number2 a b = (a - 48) * 10 + (b - 48)

-- `String(n)`, for a number of at most 16 digits, which every exact integer is
unfoldable pub digits : ℕ → ℕ → List ℕ
digits zero n = []
digits (suc fuel) n = elim (ltb n 10) [
  | true ↦ (48 + n) ∷ []
  | false ↦ digits fuel (n / 10) ++ ((48 + n % 10) ∷ [])
]

abbrev pub decimal : ℕ → List ℕ
decimal n = digits 16 n

-- `padStart(2, "0")`
abbrev pub pad_start : List ℕ → List ℕ
pad_start [] = 48 ∷ 48 ∷ []
pad_start (a ∷ []) = 48 ∷ a ∷ []
pad_start (a ∷ b ∷ s) = a ∷ b ∷ s

-- The numbers of a text of the form `dddd-dd-dd`
unfoldable pub fields : List ℕ → Option (ℕ × ℕ × ℕ)
fields (a ∷ b ∷ c ∷ d ∷ h ∷ e ∷ f ∷ k ∷ i ∷ j ∷ []) =
    if (is_digit a && (is_digit b && (is_digit c && is_digit d)))
      && ((h == hyphen && k == hyphen)
          && ((is_digit e && is_digit f) && (is_digit i && is_digit j)))
    then some (number2 a b * 100 + number2 c d, number2 e f, number2 i j)
    else none
fields _ = none

module _ {D : Type 0} (j : Dates D) where
  -- The date is kept if its fields are the ones that were asked for.
  unfoldable pub checked : ℕ × ℕ × ℕ → Option D
  checked (year, month, day) =
      let date = j.make year month day in
      if j.get_full_year date == year && (j.get_month date == month && j.get_date date == day)
      then some date
      else none

  unfoldable pub checked_fields : Option (ℕ × ℕ × ℕ) → Option D
  checked_fields none = none
  checked_fields (some f) = checked f

  unfoldable pub parse_date_value : List ℕ → Option D
  parse_date_value value = checked_fields (fields value)

  unfoldable pub format_date_value : D → List ℕ
  format_date_value date =
      decimal (j.get_full_year date)
      ++ (hyphen
          ∷ (pad_start (decimal (j.get_month date))
              ++ (hyphen ∷ pad_start (decimal (j.get_date date)))))
