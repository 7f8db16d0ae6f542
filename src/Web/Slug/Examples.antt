-- ===== src/Web/Slug/Examples.antt =====
-- Tests of the names in paths on concrete texts of the Latin alphabet.
use unity_runn.Prelude.{ℕ, ◌+◌, ◌≡◌, refl, List, [], ◌∷◌, if◌then◌else◌}
use unity_runn.Web.Slug.{
  between, is_space, drop_start, drop_end, collapse, ics, generate_slug, event_calendar_filename,
}

abbrev to_lower : List ℕ → List ℕ
to_lower [] = []
to_lower (c ∷ s) = (if between 65 90 c then c + 32 else c) ∷ to_lower s

-- " A_b -1! "
abbrev a_name : List ℕ
a_name = 32 ∷ 65 ∷ 95 ∷ 98 ∷ 32 ∷ 45 ∷ 49 ∷ 33 ∷ 32 ∷ []

-- "a-b-1"
generate_slug-name : generate_slug to_lower a_name ≡ 97 ∷ 45 ∷ 98 ∷ 45 ∷ 49 ∷ []
unfolding generate_slug drop_start drop_end collapse is_space
generate_slug-name = refl

-- "a-b--1.ics": each run of other characters is one hyphen, and a hyphen of the slug stays beside it.
filename-name : event_calendar_filename to_lower a_name ≡ 97 ∷ 45 ∷ 98 ∷ 45 ∷ 45 ∷ 49 ∷ ics
unfolding event_calendar_filename drop_start drop_end collapse
filename-name = refl
