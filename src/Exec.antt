-- ===== src/Exec.antt =====
-- Asynchronous methods that change shared state and may throw. What was written before a throw stays
-- written, so the state comes back beside the error too.
pub mod Keeps
use unity_runn.Prelude.{
  String, ℕ, Option, none, some, Bool, if◌then◌else◌, ◌≡◌, refl, ◌⊎◌, inl, inr,
}

-- `ApiError` of mobile/services/api/client.ts
pub record ApiError : Type 0 where
  pub message : String
  pub status : ℕ
  pub code : String

-- What a `throw` carries: an `ApiError`, a `LiveActivityUnsupportedError`, another `Error` by its
-- message, or a value that is no `Error`, by its truth value.
pub data Failure : Type 0 where
  api : ApiError → Failure
  unsupported : String → Failure
  plain : String → Failure
  foreign : Bool → Failure

pub data Result {ℓ} (A : Type ℓ) : Type ℓ where
  ok : A → Result A
  err : Failure → Result A

abbrev pub Exec : Type 0 → Type 0 → Type 0
Exec S A = S → Result A × S

module _ {S A : Type 0} where
  abbrev pub pure : A → Exec S A
  pure a s = (ok a, s)

  abbrev pub raise : Failure → Exec S A
  raise e s = (err e, s)

  abbrev pub lift : Result A → Exec S A
  lift r s = (r, s)

  abbrev pub gets : (S → A) → Exec S A
  gets f s = (ok (f s), s)

  abbrev recover : Result A → (Failure → Exec S A) → Exec S A
  recover r h s = elim r [ ok a ↦ (ok a, s) | err e ↦ h e s ]

  -- `try { m } catch (error) { h(error) }`
  abbrev pub catching : Exec S A → (Failure → Exec S A) → Exec S A
  catching m h s = recover (m s).0 h (m s).1

  abbrev pub branch : Bool → Exec S A → Exec S A → Exec S A
  branch b m k s = if b then m s else k s

  -- `m.then(a => ok(a), e => err(e))`: the outcome as a value
  abbrev pub settle : Exec S A → Exec S (Result A)
  settle m s = (ok (m s).0, (m s).1)

  -- `try { m } finally { f }` for an `f` that only writes
  abbrev pub finally : Exec S A → (S → S) → Exec S A
  finally m f s = ((m s).0, f (m s).1)

abbrev pub modify : {S : Type 0} → (S → S) → Exec S (Unit {0})
modify f s = (ok tt, f s)

abbrev pub when : {S : Type 0} → Bool → Exec S (Unit {0}) → Exec S (Unit {0})
when b m s = if b then m s else (ok tt, s)

module _ {S A B : Type 0} where
  -- `if (a) k(a) else m`
  abbrev pub given : Option A → Exec S B → (A → Exec S B) → Exec S B
  given o m k s = elim o [ none ↦ m s | some a ↦ k a s ]

  abbrev pub continue : Result A → (A → Exec S B) → Exec S B
  continue r f s = elim r [ ok a ↦ f a s | err e ↦ (err e, s) ]

  infixl 5 ◌>>=◌ ◌>>◌
  abbrev pub ◌>>=◌ : Exec S A → (A → Exec S B) → Exec S B
  ◌>>=◌ m f s = continue (m s).0 f (m s).1

  abbrev pub ◌>>◌ : Exec S A → Exec S B → Exec S B
  m >> k = m >>= λ _. k

pub Result-cases : (r : Result (Unit {0})) → (r ≡ ok tt) ⊎ ((e : Failure) × (r ≡ err e))
Result-cases (ok tt) = inl refl
Result-cases (err e) = inr (e, refl)

pub Result-split {ℓ} :
    {A : Type ℓ} (r : Result A) → ((a : A) × (r ≡ ok a)) ⊎ ((e : Failure) × (r ≡ err e))
Result-split (ok a) = inl (a, refl)
Result-split (err e) = inr (e, refl)
