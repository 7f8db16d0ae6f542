-- ===== src/Prelude/Texts.antt =====
-- Equality of texts as a Boolean test, and lists of different texts.
use Prim.Native.String.{String}
use mathlib.Core.Path.{◌≡◌, ap}
use mathlib.Core.Logic.{inl, inr}
use mathlib.Core.Bool.{true, false}
use mathlib.Core.List.{List, [], ◌∷◌}
use native.Mathlib.Omega.{arith}
use text.Mathlib.Text.{◌==◌ as str_eq}
use text.Mathlib.TextEquality.{eq_iff}
use text.Mathlib.TextPositions.{eq_refl}
use unity_runn.Prelude.Tests.{Bool-cases}
use unity_runn.Prelude.Lists.{any}

pub eq_sym : (a b : String) → str_eq a b ≡ str_eq b a
eq_sym a b = elim (Bool-cases (str_eq a b)) [
  | inl h ↦ ground (arith, eq_iff a b, eq_refl a)
  | inr h ↦ ground (arith, eq_iff b a, eq_refl a)
]

pub eq_same : (x k id : String) → str_eq x k ≡ true → str_eq x id ≡ str_eq k id
eq_same x k id h = ap (λ z. str_eq z id) ((eq_iff x k).0 h)

pub eq_join : (x k id : String) → str_eq x id ≡ true → str_eq k id ≡ true → str_eq x k ≡ true
eq_join x k id h l = rw ((eq_iff x id).0 h, (eq_iff k id).0 l) (eq_refl id)

abbrev pub AreDistinct : List String → Type 0
AreDistinct [] = Unit
AreDistinct (k ∷ ks) = (any (λ x. str_eq x k) ks ≡ false) × AreDistinct ks
