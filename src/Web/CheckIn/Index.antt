-- ===== src/Web/CheckIn/Index.antt =====
-- frontend/src/pages/admin/checkin/index.tsx: the index of the registrations against a search of their list.
use unity_runn.Prelude.{
  String, Option, none, some, List, [], ◌∷◌, ◌&&◌, str_eq, if◌then◌else◌, ◌≡◌, refl, sym, ap, ◌∙◌,
  arith, inl, inr, Bool-cases,
}
use unity_runn.Web.CheckIn.{
  Registration, Texts, Index, get, set_keys, or_get, index_from, registration_index,
  resolve_scan_target,
}
use unity_runn.Web.CheckIn.Lookups.{is_key}

-- The last registration of an event that a text is a key of: the search that the index replaces
unfoldable pub last_match :
    Texts → (selected key : String) → List Registration → Option Registration
last_match j selected key [] = none
last_match j selected key (r ∷ rs) =
    or_get (last_match j selected key rs)
      (if str_eq r.event_id selected && is_key j r key then some r else none)

or_get_assoc : (a b c : Option Registration) → or_get (or_get a b) c ≡ or_get a (or_get b c)
or_get_assoc none b c = refl
or_get_assoc (some r) b c = refl

or_get-none : (a : Option Registration) → or_get a none ≡ a
or_get-none none = refl
or_get-none (some r) = refl

get-set_keys :
    (j : Texts) (r : Registration) (index : Index) (key : String)
    → get (set_keys j r index) key
      ≡ or_get (if is_key j r key then some r else none) (get index key)
unfolding get
get-set_keys j r index key = ground arith

get-index_from :
    (j : Texts) (selected key : String) (rs : List Registration) (index : Index)
    → get (index_from j index selected rs) key
      ≡ or_get (last_match j selected key rs) (get index key)
unfolding last_match
get-index_from j selected key [] index = refl
get-index_from j selected key (r ∷ rs) index = elim (Bool-cases (str_eq r.event_id selected)) [
  | inl own ↦
      let later = last_match j selected key rs in
      rw own (
        get-index_from j selected key rs (set_keys j r index)
        ∙ (ap (or_get later) (get-set_keys j r index key)
            ∙ sym (or_get_assoc later _ (get index key))))
  | inr other ↦ rw other (
      get-index_from j selected key rs index
      ∙ sym (or_get_assoc (last_match j selected key rs) none (get index key)))
]

get-registration_index :
    (j : Texts) (selected key : String) (rs : List Registration)
    → get (registration_index j rs selected) key ≡ last_match j selected key rs
unfolding registration_index get
get-registration_index j selected key rs =
    get-index_from j selected key rs [] ∙ or_get-none (last_match j selected key rs)

-- What a scanned text finds is what a search of the whole list finds: the last registration of the event that is
-- chosen whose id, or whose number or address in small letters, is the text, and otherwise the last one for which
-- it is the text in small letters.
pub resolve_scan_target-last_match :
    (j : Texts) (rs : List Registration) (selected token : String)
    → resolve_scan_target j (registration_index j rs selected) token
      ≡ or_get (last_match j selected token rs) (last_match j selected (j.lower token) rs)
unfolding resolve_scan_target
resolve_scan_target-last_match j rs selected token = λ x.
    or_get (get-registration_index j selected token rs x)
      (get-registration_index j selected (j.lower token) rs x)
