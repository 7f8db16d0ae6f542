-- ===== src/Exec/Keeps.antt =====
-- Properties of the state that a method keeps, whether it returns or throws: one rule for each way to
-- build a method.
use unity_runn.Prelude.{Option, none, some, Bool, true, false}
use unity_runn.Exec.{
  Failure, Result, ok, err, Exec, pure, raise, lift, gets, recover, catching, settle, branch, when,
  given, continue, ◌>>=◌,
}

pub record Keeps {S A : Type 0} (P : S → Type 0) (m : Exec S A) : Type 0 where
  pub at : (s : S) → P s → P (m s).1

module _ {S A : Type 0} {P : S → Type 0} where
  pub Keeps-pure : (a : A) → Keeps P (pure a)
  Keeps-pure a = record { at = λ s h. h }

  pub Keeps-raise : (e : Failure) → Keeps P (raise {A = A} e)
  Keeps-raise e = record { at = λ s h. h }

  pub Keeps-lift : (r : Result A) → Keeps P (lift r)
  Keeps-lift r = record { at = λ s h. h }

  pub Keeps-gets : (f : S → A) → Keeps P (gets f)
  Keeps-gets f = record { at = λ s h. h }

  pub Keeps-settle : (m : Exec S A) → Keeps P m → Keeps P (settle m)
  Keeps-settle m k = record { at = λ s h. k.at s h }

  pub Keeps-branch : (b : Bool) (m n : Exec S A) → Keeps P m → Keeps P n → Keeps P (branch b m n)
  Keeps-branch true m n km kn = record { at = λ s h. km.at s h }
  Keeps-branch false m n km kn = record { at = λ s h. kn.at s h }

  Keeps-recover :
      (r : Result A) (f : Failure → Exec S A) (s : S)
      → P s
      → ((e : Failure) → Keeps P (f e))
      → P (recover r f s).1
  Keeps-recover (ok a) f s h kf = h
  Keeps-recover (err e) f s h kf = (kf e).at s h

  pub Keeps-catching :
      (m : Exec S A) (f : Failure → Exec S A)
      → Keeps P m
      → ((e : Failure) → Keeps P (f e))
      → Keeps P (catching m f)
  Keeps-catching m f km kf = record { at = λ s h. Keeps-recover (m s).0 f (m s).1 (km.at s h) kf }

module _ {S : Type 0} {P : S → Type 0} where
  pub Keeps-when : (b : Bool) (m : Exec S (Unit {0})) → Keeps P m → Keeps P (when b m)
  Keeps-when true m k = record { at = λ s h. k.at s h }
  Keeps-when false m k = record { at = λ s h. h }

module _ {S A B : Type 0} {P : S → Type 0} where
  pub Keeps-given :
      (o : Option A) (m : Exec S B) (f : A → Exec S B)
      → Keeps P m
      → ((a : A) → Keeps P (f a))
      → Keeps P (given o m f)
  Keeps-given none m f km kf = record { at = λ s h. km.at s h }
  Keeps-given (some a) m f km kf = record { at = λ s h. (kf a).at s h }

  Keeps-continue :
      (r : Result A) (f : A → Exec S B) (s : S)
      → P s
      → ((a : A) → Keeps P (f a))
      → P (continue r f s).1
  Keeps-continue (ok a) f s h kf = (kf a).at s h
  Keeps-continue (err e) f s h kf = h

  pub Keeps-bind :
      (m : Exec S A) (f : A → Exec S B) → Keeps P m → ((a : A) → Keeps P (f a)) → Keeps P (m >>= f)
  Keeps-bind m f km kf = record { at = λ s h. Keeps-continue (m s).0 f (m s).1 (km.at s h) kf }

pub ruleset keeps_rules = (
  Keeps-pure, Keeps-raise, Keeps-lift, Keeps-gets, Keeps-settle, Keeps-branch, Keeps-catching,
  Keeps-when, Keeps-given, Keeps-bind,
)
