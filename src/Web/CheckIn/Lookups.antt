-- ===== src/Web/CheckIn/Lookups.antt =====
-- frontend/src/pages/admin/checkin/index.tsx: what a scanned text finds.
use unity_runn.Prelude.{
  String, Option, some, List, [], ◌∷◌, Bool, true, false, ◌&&◌, ◌||◌, truthy, str_eq, if◌then◌else◌,
  ◌≡◌, refl, sym, ◌∙◌, arith, inl, inr, ◌⊎◌, Bool-cases, Option-cases, eq_iff, eq_refl,
}
use unity_runn.Web.CheckIn.{
  Registration, Texts, Index, get, set_keys, index_from, registration_index, resolve_scan_target,
}

-- Whether a text is one that a registration is found by
abbrev pub is_key : Texts → Registration → String → Bool
is_key j r key =
    str_eq r.id key
    || ((truthy r.registration_number && str_eq (j.lower r.registration_number) key)
        || (truthy r.email && str_eq (j.lower r.email) key))

ap2 : {A B C : Type 0} (f : A → B → C) {a a' : A} {b b' : B} → a ≡ a' → b ≡ b' → f a b ≡ f a' b'
ap2 f p q = λ x. f (p x) (q x)

abbrev is_entry : Texts → String → String × Registration → Bool
is_entry j selected (key, r) = str_eq r.event_id selected && is_key j r key

abbrev are_entries : Texts → String → Index → Bool
are_entries j selected [] = true
are_entries j selected (e ∷ index) = is_entry j selected e && are_entries j selected index

set_keys-entries :
    (j : Texts) (selected : String) (r : Registration) (index : Index)
    → str_eq r.event_id selected ≡ true
    → are_entries j selected index ≡ true
    → are_entries j selected (set_keys j r index) ≡ true
set_keys-entries j selected r index own h =
    ground (arith, eq_refl r.id, eq_refl (j.lower r.registration_number), eq_refl (j.lower r.email))

index_from-entries :
    (j : Texts) (selected : String) (rs : List Registration) (index : Index)
    → are_entries j selected index ≡ true
    → are_entries j selected (index_from j index selected rs) ≡ true
index_from-entries j selected [] index h = h
index_from-entries j selected (r ∷ rs) index h =
    index_from-entries j selected rs
      (if str_eq r.event_id selected then set_keys j r index else index)
      (elim (Bool-cases (str_eq r.event_id selected)) [
        | inl own ↦ rw own (set_keys-entries j selected r index own h)
        | inr other ↦ rw other h
      ])

some-chosen :
    (b : Bool) (q r : Registration) (rest : Option Registration)
    → (if b then some q else rest) ≡ some r
    → ((b ≡ true) × (q ≡ r)) ⊎ (rest ≡ some r)
some-chosen true q r rest h = inl (refl, ground (arith, h))
some-chosen false q r rest h = inr h

get-entry :
    (j : Texts) (selected key : String) (r : Registration) (index : Index)
    → are_entries j selected index ≡ true
    → get index key ≡ some r
    → is_entry j selected (key, r) ≡ true
unfolding get
get-entry j selected key r [] h found = ground (arith, found)
get-entry j selected key r ((k, q) ∷ index) h found =
    elim (some-chosen (str_eq k key) q r (get index key) found) [
      | inl (hit, same) ↦
          ap2 (λ c p. is_entry j selected (c, p)) (sym ((eq_iff k key).0 hit)) (sym same)
          ∙ ground (arith, h)
      | inr later ↦ get-entry j selected key r index (ground (arith, h)) later
    ]

-- The registration that a scanned text finds is one of the event that is chosen, and the text or its small
-- letters are the registration's id or the small letters of its number or of its address.
pub resolve_scan_target-selected :
    (j : Texts) (rs : List Registration) (selected token : String) (r : Registration)
    → resolve_scan_target j (registration_index j rs selected) token ≡ some r
    → (str_eq r.event_id selected ≡ true)
      × ((is_key j r token ≡ true) ⊎ (is_key j r (j.lower token) ≡ true))
unfolding resolve_scan_target registration_index
resolve_scan_target-selected j rs selected token r found =
    let entries = index_from-entries j selected rs [] refl in
    elim (Option-cases (get (index_from j [] selected rs) token)) [
      | inl absent ↦ ground (
        arith,
        found,
        absent,
        get-entry j selected (j.lower token) r (index_from j [] selected rs) entries,
      )
      | inr (q, hit) ↦
          ground
            (arith, found, hit, get-entry j selected token r (index_from j [] selected rs) entries)
    ]
