-- ===== src/Mobile/DateValue/RoundTrip.antt =====
-- Birth dates survive being written and read.
use unity_runn.Prelude.{
  ℕ, ◌+◌, ◌*◌, ◌/◌, ◌%◌, ◌≤◌, ◌<◌, ◌≡◌, refl, sym, ap, ◌∙◌, arith, List, [], ◌∷◌, ◌++◌, some, true,
  inl, inr, Option-cases,
}
use unity_runn.Mobile.DateValue.{
  Dates, is_digit, hyphen, number2, digits, decimal, pad_start, fields, checked, checked_fields,
  parse_date_value, format_date_value,
}

-- A number below 100 in two digits, and one of four digits
abbrev two : ℕ → List ℕ
two n = (48 + n / 10) ∷ (48 + n % 10) ∷ []

abbrev four : ℕ → List ℕ
four n = (48 + n / 1000) ∷ (48 + n / 100 % 10) ∷ (48 + n / 10 % 10) ∷ (48 + n % 10) ∷ []

pad_start-two : (n : ℕ) → n < 100 → pad_start (decimal n) ≡ two n
unfolding digits
pad_start-two n h = ground arith

decimal-four : (n : ℕ) → 1000 ≤ n → n < 10000 → decimal n ≡ four n
unfolding digits
decimal-four n h k = ground arith

-- What is documented of `Date`: a month and a day lie within their bounds, and the date that is made of a
-- date's fields has these fields.
pub record IsDates {D : Type 0} (j : Dates D) : Type 0 where
  pub month_bound : (d : D) → j.get_month d ≤ 12
  pub date_bound : (d : D) → j.get_date d ≤ 31
  pub again :
      (d : D)
      → let made = j.make (j.get_full_year d) (j.get_month d) (j.get_date d) in
        (j.get_full_year made ≡ j.get_full_year d)
        × (j.get_month made ≡ j.get_month d)
        × (j.get_date made ≡ j.get_date d)

format_date_value-written :
    {D : Type 0} (j : Dates D) (lawful : IsDates j) (d : D)
    → 1000 ≤ j.get_full_year d
    → j.get_full_year d < 10000
    → format_date_value j d
      ≡ four (j.get_full_year d)
        ++ (hyphen ∷ (two (j.get_month d) ++ (hyphen ∷ two (j.get_date d))))
unfolding format_date_value
format_date_value-written j lawful d lower upper =
    rw
      (
        decimal-four (j.get_full_year d) lower upper,
        pad_start-two (j.get_month d) (omega (arith, lawful.month_bound d)),
        pad_start-two (j.get_date d) (omega (arith, lawful.date_bound d)),
      )
      refl

parse_date_value-fields :
    {D : Type 0} (j : Dates D) (s : List ℕ) (f : ℕ × ℕ × ℕ)
    → fields s ≡ some f
    → parse_date_value j s ≡ checked j f
unfolding parse_date_value checked_fields
parse_date_value-fields j s f read = ap (checked_fields j) read

two-number2 : (a b : ℕ) → is_digit a ≡ true → is_digit b ≡ true → two (number2 a b) ≡ a ∷ b ∷ []
two-number2 a b h k = ground arith

four-number2 :
    (a b c d : ℕ)
    → is_digit a ≡ true
    → is_digit b ≡ true
    → is_digit c ≡ true
    → is_digit d ≡ true
    → four (number2 a b * 100 + number2 c d) ≡ a ∷ b ∷ c ∷ d ∷ []
four-number2 a b c d ha hb hc hd = ground arith

abbrev joined : List ℕ → ℕ → List ℕ → ℕ → List ℕ → List ℕ
joined year h month k day = year ++ (h ∷ (month ++ (k ∷ day)))

abbrev written : ℕ × ℕ × ℕ → List ℕ
written (y, m, d) = joined (four y) hyphen (two m) hyphen (two d)

-- What is known of a text of ten characters that is read
matched :
    (a b c d h e g k i j : ℕ) (f : ℕ × ℕ × ℕ)
    → fields (a ∷ b ∷ c ∷ d ∷ h ∷ e ∷ g ∷ k ∷ i ∷ j ∷ []) ≡ some f
    → ((is_digit a ≡ true) × (is_digit b ≡ true) × (is_digit c ≡ true) × (is_digit d ≡ true))
      × ((is_digit e ≡ true) × (is_digit g ≡ true) × (is_digit i ≡ true) × (is_digit j ≡ true))
      × ((h ≡ hyphen) × (k ≡ hyphen))
      × (f ≡ (number2 a b * 100 + number2 c d, number2 e g, number2 i j))
unfolding fields
matched a b c d h e g k i j f read = ground arith

fields-read : (s : List ℕ) (f : ℕ × ℕ × ℕ) → fields s ≡ some f → s ≡ written f
unfolding fields
fields-read (a ∷ b ∷ c ∷ d ∷ h ∷ e ∷ g ∷ k ∷ i ∷ j ∷ []) f read =
    let (years, days, hyphens, numbers) = matched a b c d h e g k i j f read in
    let year = four-number2 a b c d years.0 years.1 years.2 years.3 in
    let month = two-number2 e g days.0 days.1 in
    let day = two-number2 i j days.2 days.3 in
    sym (
      ap written numbers
      ∙ (λ x. joined (year x) (sym hyphens.0 x) (month x) (sym hyphens.1 x) (day x)))
fields-read _ f read = ground (arith, read)

checked-some :
    {D : Type 0} (j : Dates D) (f : ℕ × ℕ × ℕ) (d : D)
    → checked j f ≡ some d
    → f ≡ (j.get_full_year d, j.get_month d, j.get_date d)
unfolding checked
checked-some j (y, m, n) d read = ground (arith, read)

parse_date_value-some :
    {D : Type 0} (j : Dates D) (s : List ℕ) (d : D)
    → parse_date_value j s ≡ some d
    → s ≡ written (j.get_full_year d, j.get_month d, j.get_date d)
unfolding parse_date_value checked_fields
parse_date_value-some j s d read = elim (Option-cases (fields s)) [
  | inl absent ↦ ground (arith, absent, read)
  | inr (f, found) ↦
      fields-read s f found
      ∙ ap written (checked-some j f d (sym (parse_date_value-fields j s f found) ∙ read))
]

-- With a class `Date` whose months and days lie within their bounds, and where a date made of a date's fields
-- has these fields: a text that is read as a date between the years 1000 and 9999 is the text that this date
-- is written as.
pub format_date_value-parse_date_value :
    {D : Type 0} (j : Dates D) (lawful : IsDates j) (s : List ℕ) (d : D)
    → parse_date_value j s ≡ some d
    → 1000 ≤ j.get_full_year d
    → j.get_full_year d < 10000
    → format_date_value j d ≡ s
format_date_value-parse_date_value j lawful s d read lower upper =
    format_date_value-written j lawful d lower upper ∙ sym (parse_date_value-some j s d read)
