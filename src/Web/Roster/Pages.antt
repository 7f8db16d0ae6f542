-- ===== src/Web/Roster/Pages.antt =====
-- frontend/src/pages/admin/registrations/index.tsx: the rows that are loaded page by page.
use unity_runn.Prelude.{
  ℕ, zero, suc, ◌+◌, ◌*◌, ◌≤◌, String, Option, none, some, List, [], ◌∷◌, ◌++◌, Bool, true, false,
  ltb, str_eq, or_else, if◌then◌else◌, length, ◌≡◌, refl, sym, ap, ◌∙◌, arith,
}
use unity_runn.Exec.{ok}
use unity_runn.Web.CheckIn.{take}
use unity_runn.Web.Roster.{
  Registration, Roster, Texts, RegistrationPage, ListCall, active_filters, change_search,
  start_list, end_list, start_more, end_more, can_load_more,
}

unfoldable pub skip {ℓ} : {A : Type ℓ} → ℕ → List A → List A
skip zero xs = xs
skip (suc n) [] = []
skip (suc n) (x ∷ xs) = skip n xs

-- What a service with these registrations answers to a call
abbrev pub page_of : List Registration → ListCall → RegistrationPage
page_of rows call = record {
  registrations = some (take call.limit (skip call.offset rows));
  total = some (length rows);
}

abbrev answered : List Registration → Option ListCall × Roster → Roster
answered rows (none, s) = s
answered rows (some call, s) = end_more (ok (page_of rows call)) s

-- The button is pressed a number of times, each time when the page before has been answered.
unfoldable pub load_pages : Texts → List Registration → ℕ → Roster → Roster
load_pages j rows zero s = s
load_pages j rows (suc k) s = load_pages j rows k (answered rows (start_more j s))

plus_zero : (m : ℕ) → m ≡ 0 + m
plus_zero m = omega arith

suc_plus : (n m : ℕ) → suc n + m ≡ suc (n + m)
suc_plus n m = omega arith

take-nil {ℓ} : {A : Type ℓ} (n : ℕ) → take {A = A} n [] ≡ []
unfolding take
take-nil zero = refl
take-nil (suc n) = refl

take-skip {ℓ} :
    {A : Type ℓ} (n m : ℕ) (xs : List A)
    → take n xs ++ take m (skip (length (take n xs)) xs) ≡ take (n + m) xs
unfolding take skip
take-skip zero m xs = ap (λ k. take k xs) (plus_zero m)
take-skip {A} (suc n) m [] = rw (take-nil {A = A} m, take-nil {A = A} (suc n + m)) refl
take-skip (suc n) m (x ∷ xs) = rw (suc_plus n m) (ap (◌∷◌ x) (take-skip n m xs))

take-all {ℓ} :
    {A : Type ℓ} (n m : ℕ) (xs : List A)
    → ltb (length (take n xs)) (length xs) ≡ false
    → take n xs ≡ take (n + m) xs
unfolding take
take-all n m [] h = take-nil n ∙ sym (take-nil (n + m))
take-all zero m (x ∷ xs) h = ground (arith, h)
take-all (suc n) m (x ∷ xs) h = rw (suc_plus n m) (ap (◌∷◌ x) (take-all n m xs (ground (arith, h))))

take-length {ℓ} : {A : Type ℓ} (n : ℕ) (xs : List A) → length xs ≤ n → take n xs ≡ xs
unfolding take
take-length zero [] h = refl
take-length (suc n) [] h = refl
take-length zero (x ∷ xs) h = ground (arith, h)
take-length (suc n) (x ∷ xs) h = ap (◌∷◌ x) (take-length n xs (ground (arith, h)))

-- The first rows of the roster are shown, and nothing is loaded.
abbrev pub Shows : List Registration → ℕ → Roster → Type 0
Shows rows n s =
    (s.registrations ≡ take n rows)
    × (s.total ≡ length rows)
    × (s.loading ≡ false)
    × (s.loading_more ≡ false)

asked-Shows :
    (j : Texts) (rows : List Registration) (n : ℕ) (s : Roster) (b : Bool)
    → b ≡ ltb (length s.registrations) (length rows)
    → Shows rows n s
    → Shows rows (n + 200) (
        answered rows (
          if b
          then (
            some (record {
              filters = active_filters j s;
              limit = 200;
              offset = length s.registrations;
            }),
            record s { loading_more = true },
          )
          else (none, s)))
unfolding end_more
asked-Shows j rows n s true e (shown, total, idle, still) = (
  ap (λ rs. rs ++ take 200 (skip (length rs) rows)) shown ∙ take-skip n 200 rows,
  refl,
  idle,
  refl,
)
asked-Shows j rows n s false e (shown, total, idle, still) = (
  shown ∙ take-all n 200 rows (ap (λ rs. ltb (length rs) (length rows)) (sym shown) ∙ sym e),
  total,
  idle,
  still,
)

page-Shows :
    (j : Texts) (rows : List Registration) (n : ℕ) (s : Roster)
    → Shows rows n s
    → Shows rows (n + 200) (answered rows (start_more j s))
unfolding start_more
page-Shows j rows n s h = asked-Shows j rows n s (can_load_more s) (ground (arith, h.1, h.2, h.3)) h

no_pages : (n : ℕ) → n + 200 * 0 ≡ n
no_pages n = omega arith

more_pages : (n k : ℕ) → n + 200 * suc k ≡ n + 200 + 200 * k
more_pages n k = omega arith

load_pages-Shows :
    (j : Texts) (rows : List Registration) (k n : ℕ) (s : Roster)
    → Shows rows n s
    → Shows rows (n + 200 * k) (load_pages j rows k s)
unfolding load_pages
load_pages-Shows j rows zero n s h = rw (no_pages n) h
load_pages-Shows j rows (suc k) n s h =
    rw (more_pages n k) (
      load_pages-Shows j rows k (n + 200) (answered rows (start_more j s))
        (page-Shows j rows n s h))

hidden :
    (s : Roster) (rows : List Registration)
    → s.registrations ≡ rows
    → s.total ≡ length rows
    → can_load_more s ≡ false
hidden s rows whole total = ground (arith, ap (λ rs. ltb (length rs) s.total) whole, total)

-- While nothing else happens on the page and the service has a fixed list of registrations: after the first page,
-- pressing the button for more rows at most as often as there are pages left shows exactly the registrations of the
-- service, in its order, none of them twice or left out, and takes the button away.
pub load_pages-all :
    (j : Texts) (rows : List Registration) (k n : ℕ) (s : Roster)
    → Shows rows n s
    → length rows ≤ n + 200 * k
    → ((load_pages j rows k s).registrations ≡ rows)
      × (can_load_more (load_pages j rows k s) ≡ false)
load_pages-all j rows k n s h enough =
    let (shown, total, idle, still) = load_pages-Shows j rows k n s h in
    let whole = shown ∙ take-length (n + 200 * k) rows enough in
    (whole, hidden (load_pages j rows k s) rows whole total)

-- A page of the rows that was asked for before the search was changed, and that is answered after the first page of
-- the new search, is put behind it: the table shows rows of both searches, and the total of the old one.
pub end_more-mixed :
    (j : Texts) (value : String) (s : Roster) (call : ListCall) (page more : RegistrationPage)
    → (start_more j s).0 ≡ some call
    → str_eq value s.search_query ≡ false
    → let changed = change_search value (start_more j s).1 in
      let shown =
        end_list changed.list_round (ok page) (start_list j changed.list_round changed).1 in
      let t = end_more (ok more) shown in
      (call.filters ≡ active_filters j s)
      × (t.search_query ≡ value)
      × (t.registrations ≡ or_else page.registrations [] ++ or_else more.registrations [])
      × (t.total ≡ or_else more.total 0)
unfolding start_more change_search end_list start_list end_more
end_more-mixed j value s call page more asked other = ground (arith, asked, other)
