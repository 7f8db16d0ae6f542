-- ===== src/Web/Dashboard/Entries.antt =====
-- frontend/src/pages/dashboard.tsx: the entries of the page against those of the runner.
use mathlib.Core.List.{Perm}
use mathlib.Core.List.Perm
use unity_runn.Prelude.{
  AreDistinct, eq_sym, String, Option, none, some, List, [], ◌∷◌, Bool, true, false, not, ◌||◌, any,
  keep, map, str_eq, eq_refl, truthy, All, All-keep, if◌then◌else◌, Bool-cases, ◌≡◌, inl, inr, refl,
  ap, arith,
}
use unity_runn.Prelude.Sorting.{sort_by, sort_by-Perm, All-sort_by}
use unity_runn.Web.Dashboard.{
  Entry, Race, Dated, Days, is_pending, is_confirmed, event_by_id, else_option, with_events,
  dated_entry, find_first, find_last, entry_of, head_of, active_entries, dated_entries,
  featured_registration, comes_after, is_featured, others,
}

abbrev pub ids : List Entry → List String
ids regs = map (λ reg. reg.id) regs

-- An option that is empty or holds a value with a property
abbrev Holds {ℓ} : {A : Type ℓ} → (A → Type 0) → Option A → Type 0
Holds P none = Unit
Holds P (some a) = P a

module _ {A : Type 0} (P : A → Type 0) where
  else-Holds : (a b : Option A) → Holds P a → Holds P b → Holds P (else_option a b)
  else-Holds none b h k = k
  else-Holds (some a) b h k = h

  first-Holds : (p : A → Bool) (xs : List A) → All P xs → Holds P (find_first p xs)
  first-Holds p [] h = tt
  first-Holds p (x ∷ xs) (one, h) = elim (Bool-cases (p x)) [
    | inl yes_ ↦ rw yes_ one
    | inr no_ ↦ rw no_ (first-Holds p xs h)
  ]

  one-Holds : (x : A) (b : Bool) → P x → Holds P (if b then some x else none)
  one-Holds x true h = h
  one-Holds x false h = tt

  last-Holds : (p : A → Bool) (xs : List A) → All P xs → Holds P (find_last p xs)
  last-Holds p [] h = tt
  last-Holds p (x ∷ xs) (one, h) =
      else-Holds (find_last p xs) _ (last-Holds p xs h) (one-Holds x (p x) one)

module _ (P : Entry → Type 0) where
  OfEntry : Dated → Type 0
  OfEntry d = P d.0

  entry-Holds : (o : Option Dated) → Holds OfEntry o → Holds P (entry_of o)
  unfolding OfEntry
  entry-Holds none h = tt
  entry-Holds (some d) h = h

  head-Holds : (regs : List Entry) → All P regs → Holds P (head_of regs)
  head-Holds [] h = tt
  head-Holds (reg ∷ regs) (one, h) = one

  dated-All :
      (reg : Entry) (o : Option Race) (rest : List Dated)
      → P reg
      → All OfEntry rest
      → All OfEntry (dated_entry reg o rest)
  unfolding OfEntry
  dated-All reg none rest one h = h
  dated-All reg (some e) rest one h = elim (Bool-cases (truthy e.event_date)) [
    | inl yes_ ↦ rw yes_ (one, h)
    | inr no_ ↦ rw no_ h
  ]

  with_events-All :
      (events : List Race) (regs : List Entry) → All P regs → All OfEntry (with_events events regs)
  with_events-All events [] h = tt
  with_events-All events (reg ∷ regs) (one, h) =
      dated-All reg (event_by_id reg.event_id events) (with_events events regs) one
        (with_events-All events regs h)

  -- What holds of all entries holds of the featured one.
  featured-Holds :
      (j : Days) (events : List Race) (regs : List Entry)
      → All P regs
      → Holds P (featured_registration j events regs)
  unfolding featured_registration dated_entries
  featured-Holds j events regs h =
      let active = All-keep P (λ reg. is_pending reg || is_confirmed reg) regs h in
      let dated = dated_entries j events regs in
      let all_dated =
        All-sort_by (λ (a : Dated) (b : Dated). j.later a.1.event_date b.1.event_date) OfEntry
          (with_events events (active_entries regs))
          (with_events-All events (active_entries regs) active) in
      else-Holds P _ _ (entry-Holds _ (first-Holds OfEntry _ dated all_dated)) (
        else-Holds P _ _ (entry-Holds _ (first-Holds OfEntry _ dated all_dated)) (
          else-Holds P _ _ (entry-Holds _ (last-Holds OfEntry _ dated all_dated))
            (else-Holds P _ _ (head-Holds (active_entries regs) active) (head-Holds regs h))))

other_ids :
    (k : String) (regs : List Entry)
    → any (λ x. str_eq x k) (ids regs) ≡ false
    → All (λ (reg : Entry). str_eq reg.id k ≡ false) regs
other_ids k [] h = tt
other_ids k (reg ∷ regs) h = (ground (arith, h), other_ids k regs (ground (arith, h)))

kept_all :
    (k : String) (regs : List Entry)
    → any (λ x. str_eq x k) (ids regs) ≡ false
    → keep (λ reg. not (str_eq reg.id k)) regs ≡ regs
kept_all k [] h = refl
kept_all k (reg ∷ regs) h = ground (arith, h, kept_all k regs)

module _ {A : Type 0} {P Q R : A → Type 0} (h : (a : A) → P a → Q a → R a) where
  All-both : (xs : List A) → All P xs → All Q xs → All R xs
  All-both [] p q = tt
  All-both (x ∷ xs) (p, ps) (q, qs) = (h x p q, All-both xs ps qs)

abbrev Splits : List Entry → Entry → Type 0
Splits regs one = Perm (one ∷ keep (λ reg. not (str_eq reg.id one.id)) regs) regs

Splits-later :
    (y one : Entry) (regs : List Entry)
    → str_eq one.id y.id ≡ false
    → Splits regs one
    → Splits (y ∷ regs) one
Splits-later y one regs other h =
    rw (eq_sym y.id one.id, other)
      (Perm.trans (Perm.swap y one (keep (λ reg. not (str_eq reg.id one.id)) regs)) (Perm.cons y h))

AreDistinct-Splits : (regs : List Entry) → AreDistinct (ids regs) → All (Splits regs) regs
AreDistinct-Splits [] d = tt
AreDistinct-Splits (reg ∷ regs) (fresh, d) = (
  rw (eq_refl reg.id, kept_all reg.id regs fresh) Perm.rfl,
  All-both (λ one other h. Splits-later reg one regs other h) regs (other_ids reg.id regs fresh)
      (AreDistinct-Splits regs d),
)

keep-none : (regs : List Entry) → keep (λ reg. not (is_featured none reg)) regs ≡ regs
keep-none [] = refl
keep-none (reg ∷ regs) = ap (◌∷◌ reg) (keep-none regs)

-- The featured entry, and the other ones after it
abbrev pub shown : Option Entry → List Entry → List Entry
shown none regs = regs
shown (some reg) regs = reg ∷ regs

shown-Perm :
    (after : Entry → Entry → Bool) (regs : List Entry) (o : Option Entry)
    → Holds (Splits regs) o
    → Perm (shown o (sort_by after (keep (λ reg. not (is_featured o reg)) regs))) regs
shown-Perm after regs none h = rw (keep-none regs) (sort_by-Perm after regs)
shown-Perm after regs (some reg) h =
    Perm.trans (Perm.cons reg (sort_by-Perm after (keep (λ x. not (str_eq x.id reg.id)) regs))) h

-- Where the entries of a runner have different ids, the featured entry and the other entries of the page are exactly
-- the entries of the runner, each of them once.
pub others-Perm :
    (j : Days) (events : List Race) (regs : List Entry)
    → AreDistinct (ids regs)
    → Perm (shown (featured_registration j events regs) (others j events regs)) regs
unfolding others
others-Perm j events regs d =
    shown-Perm (comes_after j events) regs (featured_registration j events regs)
      (featured-Holds (Splits regs) j events regs (AreDistinct-Splits regs d))
