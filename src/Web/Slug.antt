-- ===== src/Web/Slug.antt =====
-- frontend/src/pages/admin/events/new.tsx (generateSlug) and frontend/src/lib/eventCalendar.ts
-- (eventCalendarFilename): names in a path. A text is the list of its UTF-16 code units, and `toLowerCase` is
-- a parameter.
pub mod Forms
mod Examples
use unity_runn.Prelude.{
  ℕ, ◌+◌, List, [], ◌∷◌, ◌++◌, Bool, true, false, not, ◌&&◌, ◌||◌, leb, ◌==◌, if◌then◌else◌, keep,
}

abbrev pub between : ℕ → ℕ → ℕ → Bool
between low high c = leb low c && leb c high

abbrev pub hyphen : ℕ
hyphen = 45

abbrev pub underscore : ℕ
underscore = 95

-- `\s`, which is also what `trim` removes
unfoldable pub is_space : ℕ → Bool
is_space c =
    between 9 13 c
    || (c == 32
        || (c == 160
            || (c == 5760
                || (between 8192 8202 c
                    || (between 8232 8233 c
                        || (c == 8239 || (c == 8287 || (c == 12288 || c == 65279))))))))

-- `\w`
abbrev pub is_word : ℕ → Bool
is_word c = between 97 122 c || (between 65 90 c || (between 48 57 c || c == underscore))

-- `[\s_-]`
abbrev pub is_gap : ℕ → Bool
is_gap c = c == hyphen || (c == underscore || is_space c)

-- `replace(/^x+/, "")`
unfoldable pub drop_start : (ℕ → Bool) → List ℕ → List ℕ
drop_start p [] = []
drop_start p (c ∷ s) = if p c then drop_start p s else c ∷ s

abbrev pub joined : (ℕ → Bool) → ℕ → List ℕ → List ℕ
joined p c [] = if p c then [] else c ∷ []
joined p c (d ∷ s) = c ∷ d ∷ s

-- `replace(/x+$/, "")`
unfoldable pub drop_end : (ℕ → Bool) → List ℕ → List ℕ
drop_end p [] = []
drop_end p (c ∷ s) = joined p c (drop_end p s)

abbrev pub strip : (ℕ → Bool) → List ℕ → List ℕ
strip p s = drop_end p (drop_start p s)

-- Every run of gaps becomes one hyphen; `after` tells whether the character before is a gap.
unfoldable pub collapse : (ℕ → Bool) → Bool → List ℕ → List ℕ
collapse gap after [] = []
collapse gap after (c ∷ s) =
    let rest = collapse gap (gap c) s in
    if gap c then (if after then rest else hyphen ∷ rest) else c ∷ rest

unfoldable pub generate_slug : (List ℕ → List ℕ) → List ℕ → List ℕ
generate_slug lower name =
    let trimmed = strip is_space (lower name) in
    let kept = keep (λ c. is_word c || (is_space c || c == hyphen)) trimmed in
    strip (λ c. c == hyphen) (collapse is_gap false kept)

-- `[^a-z0-9-]`
abbrev pub is_unsafe : ℕ → Bool
is_unsafe c = not (between 97 122 c || (between 48 57 c || c == hyphen))

abbrev pub or_event : List ℕ → List ℕ
or_event [] =
    117 ∷ 110 ∷ 105 ∷ 116 ∷ 121 ∷ 45 ∷ 114 ∷ 117 ∷ 110 ∷ 45 ∷ 101 ∷ 118 ∷ 101 ∷ 110 ∷ 116 ∷ []
or_event (c ∷ s) = c ∷ s

-- The suffix ".ics"
abbrev pub ics : List ℕ
ics = 46 ∷ 105 ∷ 99 ∷ 115 ∷ []

unfoldable pub event_calendar_filename : (List ℕ → List ℕ) → List ℕ → List ℕ
event_calendar_filename lower slug =
    or_event (strip (λ c. c == hyphen) (collapse is_unsafe false (lower slug))) ++ ics
