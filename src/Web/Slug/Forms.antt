-- ===== src/Web/Slug/Forms.antt =====
-- The form of the names that are made for a path.
use unity_runn.Prelude.{
  ℕ, List, [], ◌∷◌, ◌++◌, Bool, true, false, not, ◌&&◌, ◌||◌, ◌==◌, if◌then◌else◌, keep, ◌≡◌, refl,
  arith,
}
use unity_runn.Web.Slug.{
  between, hyphen, is_space, is_word, is_gap, drop_start, joined, drop_end, strip, collapse,
  generate_slug, is_unsafe, or_event, ics, event_calendar_filename,
}

abbrev is_hyphen : ℕ → Bool
is_hyphen c = c == hyphen

-- All characters but the hyphens are of a class, and no hyphen follows another; `after` tells whether the
-- character before is a hyphen.
unfoldable tidy : (ℕ → Bool) → Bool → List ℕ → Bool
tidy p after [] = true
tidy p after (c ∷ s) =
    let rest = tidy p (is_hyphen c) s in if is_hyphen c then not after && rest else p c && rest

-- The same, with another character than a hyphen at the end
unfoldable pub clean : (ℕ → Bool) → Bool → List ℕ → Bool
clean p after [] = not after
clean p after (c ∷ s) =
    let rest = clean p (is_hyphen c) s in if is_hyphen c then not after && rest else p c && rest

abbrev pub settled : (ℕ → Bool) → Bool → List ℕ → Bool
settled p after [] = true
settled p after (c ∷ s) = clean p after (c ∷ s)

abbrev head_fits : (ℕ → Bool) → Bool → ℕ → Bool
head_fits p after c = if is_hyphen c then not after else p c

clean-cons :
    (p : ℕ → Bool) (after : Bool) (c : ℕ) (t : List ℕ)
    → head_fits p after c ≡ true
    → clean p (is_hyphen c) t ≡ true
    → clean p after (c ∷ t) ≡ true
unfolding clean
clean-cons p after c t fits h = ground arith

settled-joined :
    (p : ℕ → Bool) (after : Bool) (c : ℕ) (t : List ℕ)
    → head_fits p after c ≡ true
    → settled p (is_hyphen c) t ≡ true
    → settled p after (joined is_hyphen c t) ≡ true
unfolding clean
settled-joined p after c [] fits h = ground arith
settled-joined p after c (d ∷ t) fits h = clean-cons p after c (d ∷ t) fits h

tidy-cons :
    (p : ℕ → Bool) (after : Bool) (c : ℕ) (t : List ℕ)
    → tidy p after (c ∷ t) ≡ true
    → (head_fits p after c ≡ true) × (tidy p (is_hyphen c) t ≡ true)
unfolding tidy
tidy-cons p after c t h = ground arith

settled-drop_end :
    (p : ℕ → Bool) (after : Bool) (s : List ℕ)
    → tidy p after s ≡ true
    → settled p after (drop_end is_hyphen s) ≡ true
unfolding drop_end
settled-drop_end p after [] h = refl
settled-drop_end p after (c ∷ s) h =
    let (fits, rest) = tidy-cons p after c s h in
    settled-joined p after c (drop_end is_hyphen s) fits (settled-drop_end p (is_hyphen c) s rest)

abbrev pub every : (ℕ → Bool) → List ℕ → Bool
every p [] = true
every p (c ∷ s) = p c && every p s

every-drop_start :
    (p q : ℕ → Bool) (s : List ℕ) → every p s ≡ true → every p (drop_start q s) ≡ true
unfolding drop_start
every-drop_start p q [] h = refl
every-drop_start p q (c ∷ s) h = ground (arith, every-drop_start p q s)

every-joined :
    (p q : ℕ → Bool) (c : ℕ) (s : List ℕ)
    → p c ≡ true
    → every p s ≡ true
    → every p (joined q c s) ≡ true
every-joined p q c [] h k = ground arith
every-joined p q c (d ∷ s) h k = ground arith

every-drop_end : (p q : ℕ → Bool) (s : List ℕ) → every p s ≡ true → every p (drop_end q s) ≡ true
unfolding drop_end
every-drop_end p q [] h = refl
every-drop_end p q (c ∷ s) h =
    every-joined p q c (drop_end q s) (ground arith) (every-drop_end p q s (ground arith))

every-strip : (p q : ℕ → Bool) (s : List ℕ) → every p s ≡ true → every p (strip q s) ≡ true
every-strip p q s h = every-drop_end p q (drop_start q s) (every-drop_start p q s h)

every-keep :
    (p q r : ℕ → Bool)
    → ((c : ℕ) → p c ≡ true → q c ≡ true → r c ≡ true)
    → (s : List ℕ) → every p s ≡ true
    → every r (keep q s) ≡ true
every-keep p q r imp [] h = refl
every-keep p q r imp (c ∷ s) h = ground (arith, imp c, every-keep p q r imp s)

tidy-drop_start :
    (p : ℕ → Bool) (after : Bool) (s : List ℕ)
    → tidy p after s ≡ true
    → tidy p true (drop_start is_hyphen s) ≡ true
unfolding tidy drop_start
tidy-drop_start p after [] h = refl
tidy-drop_start p after (c ∷ s) h = ground (arith, tidy-drop_start p true s)

tidy-collapse :
    (p gap : ℕ → Bool) (after : Bool) (s : List ℕ)
    → every (λ c. gap c || (p c && not (is_hyphen c))) s ≡ true
    → tidy p after (collapse gap after s) ≡ true
unfolding tidy collapse
tidy-collapse p gap after [] h = refl
tidy-collapse p gap after (c ∷ s) h =
    let rest = tidy-collapse p gap (gap c) s (ground arith) in ground (arith, rest)

is_capital : ℕ → Bool
is_capital c = between 65 90 c

-- A small letter or a digit
abbrev pub is_slug_char : ℕ → Bool
is_slug_char c = between 97 122 c || between 48 57 c

generate_slug-tidy :
    (t : List ℕ)
    → every (λ c. not (is_capital c)) t ≡ true
    → settled is_slug_char true (
        strip is_hyphen (
          collapse is_gap false
            (keep (λ c. is_word c || (is_space c || is_hyphen c)) (strip is_space t))))
      ≡ true
unfolding is_capital
generate_slug-tidy t h =
    let kept =
      every-keep (λ c. not (is_capital c)) (λ c. is_word c || (is_space c || is_hyphen c))
        (λ c. is_gap c || (is_slug_char c && not (is_hyphen c))) (λ c small word. ground arith)
        (strip is_space t) (every-strip (λ c. not (is_capital c)) is_space t h) in
    let words = keep (λ c. is_word c || (is_space c || is_hyphen c)) (strip is_space t) in
    let collapsed = tidy-collapse is_slug_char is_gap false words kept in
    settled-drop_end is_slug_char true (drop_start is_hyphen (collapse is_gap false words))
      (tidy-drop_start is_slug_char false (collapse is_gap false words) collapsed)

-- If `toLowerCase` leaves no capital letter from A to Z, then the slug of a name is empty or consists of groups
-- of small letters and digits with one hyphen between two groups.
pub generate_slug-settled :
    (lower : List ℕ → List ℕ) (name : List ℕ)
    → every (λ c. not (between 65 90 c)) (lower name) ≡ true
    → settled is_slug_char true (generate_slug lower name) ≡ true
unfolding generate_slug is_capital
generate_slug-settled lower name small = generate_slug-tidy (lower name) small

every-append :
    (p : ℕ → Bool) (s t : List ℕ) → every p s ≡ true → every p t ≡ true → every p (s ++ t) ≡ true
every-append p [] t h k = k
every-append p (c ∷ s) t h k = ground (arith, every-append p s t)

every-collapse :
    (gap : ℕ → Bool) (after : Bool) (s : List ℕ)
    → gap hyphen ≡ false
    → every (λ c. not (gap c)) (collapse gap after s) ≡ true
unfolding collapse
every-collapse gap after [] h = refl
every-collapse gap after (c ∷ s) h =
    let rest = every-collapse gap (gap c) s h in ground (arith, rest, h)

every-or_event :
    (s : List ℕ)
    → every (λ c. not (is_unsafe c)) s ≡ true
    → every (λ c. not (is_unsafe c)) (or_event s) ≡ true
every-or_event [] h = refl
every-or_event (c ∷ s) h = h

every-weaker : (p q : ℕ → Bool) (s : List ℕ) → every p s ≡ true → every (λ c. p c || q c) s ≡ true
every-weaker p q [] h = refl
every-weaker p q (c ∷ s) h = ground (arith, every-weaker p q s)

or_event-cons : (s : List ℕ) → (c : ℕ) × (t : List ℕ) × (or_event s ++ ics ≡ c ∷ t ++ ics)
or_event-cons [] = (
  117,
  110 ∷ 105 ∷ 116 ∷ 121 ∷ 45 ∷ 114 ∷ 117 ∷ 110 ∷ 45 ∷ 101 ∷ 118 ∷ 101 ∷ 110 ∷ 116 ∷ [],
  refl,
)
or_event-cons (c ∷ s) = (c, s, refl)

-- The file name of an event's calendar consists of small letters, digits, hyphens and dots, whatever the event's
-- slug is, and names a file before its suffix.
pub event_calendar_filename-every :
    (lower : List ℕ → List ℕ) (slug : List ℕ)
    → (every (λ c. not (is_unsafe c) || c == 46) (event_calendar_filename lower slug) ≡ true)
      × ((c : ℕ) × (s : List ℕ) × (event_calendar_filename lower slug ≡ c ∷ s ++ ics))
unfolding event_calendar_filename
event_calendar_filename-every lower slug =
    let stem = strip is_hyphen (collapse is_unsafe false (lower slug)) in
    let safe = every-or_event stem (
      every-strip (λ c. not (is_unsafe c)) is_hyphen (collapse is_unsafe false (lower slug))
        (every-collapse is_unsafe false (lower slug) refl)) in
    (
      every-append (λ c. not (is_unsafe c) || c == 46) (or_event stem) ics
          (every-weaker (λ c. not (is_unsafe c)) (λ c. c == 46) (or_event stem) safe) refl,
      or_event-cons stem,
    )
