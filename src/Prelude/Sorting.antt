-- ===== src/Prelude/Sorting.antt =====
-- `Array.prototype.sort` with a comparison, which is stable, and the order of what it returns.
use mathlib.Core.Path.{◌≡◌, refl}
use mathlib.Core.Logic.{inl, inr}
use mathlib.Core.Bool.{Bool, true, false}
use mathlib.Core.List.{List, [], ◌∷◌, Perm}
use mathlib.Core.List.Perm
use native.Mathlib.Omega.{arith}
use unity_runn.Prelude.Tests.{if◌then◌else◌, Bool-cases}
use unity_runn.Prelude.Lists.{keep, All}

-- `after x y` says that the comparison of `x` with `y` is positive.
module _ {ℓ} {A : Type ℓ} (after : A → A → Bool) where
  abbrev pub insert_by : A → List A → List A
  insert_by x [] = x ∷ []
  insert_by x (y ∷ ys) = let rest = insert_by x ys in if after x y then y ∷ rest else x ∷ y ∷ ys

  unfoldable pub sort_by : List A → List A
  sort_by [] = []
  sort_by (x ∷ xs) = insert_by x (sort_by xs)

  insert_by-Perm : (x : A) (ys : List A) → Perm (insert_by x ys) (x ∷ ys)
  insert_by-Perm x [] = Perm.rfl
  insert_by-Perm x (y ∷ ys) = elim (Bool-cases (after x y)) [
    | inl h ↦ rw h (Perm.trans (Perm.cons y (insert_by-Perm x ys)) (Perm.swap x y ys))
    | inr h ↦ rw h Perm.rfl
  ]

  pub sort_by-Perm : (xs : List A) → Perm (sort_by xs) xs
  unfolding sort_by
  sort_by-Perm [] = Perm.rfl
  sort_by-Perm (x ∷ xs) = Perm.trans (insert_by-Perm x (sort_by xs)) (Perm.cons x (sort_by-Perm xs))

  module _ {κ} (P : A → Type κ) where
    All-insert_by : (x : A) (ys : List A) → P x → All P ys → All P (insert_by x ys)
    All-insert_by x [] p h = (p, tt)
    All-insert_by x (y ∷ ys) p (q, h) = elim (Bool-cases (after x y)) [
      | inl later ↦ rw later (q, All-insert_by x ys p h)
      | inr sooner ↦ rw sooner (p, (q, h))
    ]

    pub All-sort_by : (xs : List A) → All P xs → All P (sort_by xs)
    unfolding sort_by
    All-sort_by [] h = tt
    All-sort_by (x ∷ xs) (p, h) = All-insert_by x (sort_by xs) p (All-sort_by xs h)

  abbrev Leads : A → List A → Type 0
  Leads x [] = Unit
  Leads x (y ∷ ys) = after x y ≡ false

  -- No element comes after its successor.
  abbrev pub IsOrdered : List A → Type 0
  IsOrdered [] = Unit
  IsOrdered (x ∷ xs) = Leads x xs × IsOrdered xs

  module _ (one_way : (x y : A) → after x y ≡ true → after y x ≡ false) where
    insert_by-Leads :
        (x y : A) (ys : List A) → after x y ≡ true → Leads y ys → Leads y (insert_by x ys)
    insert_by-Leads x y [] h l = one_way x y h
    insert_by-Leads x y (z ∷ ys) h l = elim (Bool-cases (after x z)) [
      | inl later ↦ rw later l
      | inr sooner ↦ rw sooner (one_way x y h)
    ]

    insert_by-IsOrdered : (x : A) (ys : List A) → IsOrdered ys → IsOrdered (insert_by x ys)
    insert_by-IsOrdered x [] o = (tt, tt)
    insert_by-IsOrdered x (y ∷ ys) (l, o) = elim (Bool-cases (after x y)) [
      | inl later ↦ rw later (insert_by-Leads x y ys later l, insert_by-IsOrdered x ys o)
      | inr sooner ↦ rw sooner (sooner, (l, o))
    ]

    pub sort_by-IsOrdered : (xs : List A) → IsOrdered (sort_by xs)
    unfolding sort_by
    sort_by-IsOrdered [] = tt
    sort_by-IsOrdered (x ∷ xs) = insert_by-IsOrdered x (sort_by xs) (sort_by-IsOrdered xs)

  module _ (p : A → Bool) (tied : (x y : A) → p x ≡ true → p y ≡ true → after x y ≡ false) where
    insert_by-keep : (x : A) (ys : List A) → keep p (insert_by x ys) ≡ keep p (x ∷ ys)
    insert_by-keep x [] = refl
    insert_by-keep x (y ∷ ys) = ground (arith, tied x y, insert_by-keep x ys)

    -- Elements of a kind that compares as equal stay in their order.
    pub sort_by-keep : (xs : List A) → keep p (sort_by xs) ≡ keep p xs
    unfolding sort_by
    sort_by-keep [] = refl
    sort_by-keep (x ∷ xs) = ground (arith, insert_by-keep x (sort_by xs), sort_by-keep xs)
