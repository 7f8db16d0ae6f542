-- ===== src/Mobile/LiveActivity/Bridge/Outcomes.antt =====
-- How the calls of the bridge end.
use unity_runn.Prelude.{
  String, ◌≡◌, none, some, Bool, true, false, refl, arith, eq_refl, truthy, sym, ap, if◌then◌else◌,
  ◌∙◌, inl, inr,
}
use unity_runn.Exec.{ok, Result-split}
use unity_runn.Mobile.LiveActivity.Content.{
  UpdateInput, Props, updated_content, parse_saved_content, Format,
}
use unity_runn.Mobile.LiveActivity.Bridge.{
  Kit, Device, launch, find_instance, previous_content, show_merged, update_found, update_activity,
  end_found, end_activity, put,
}
use unity_runn.Mobile.LiveActivity.Bridge.Laws.{
  IsLawful, show_merged-shows, find_instance-keeps, previous_content-keeps,
}

put_self {ℓ} : {A : Type ℓ} (id : String) (v : A) (f : String → A) → put id v f id ≡ v
put_self id v f = rw (eq_refl id) refl

module _ {Sys : Type 0} (k : Kit Sys) (id : String) where
  update_found-show_merged :
      (input : UpdateInput) (p : Props) (d : Device Sys)
      → (previous_content k id d).0 ≡ ok (some p)
      → update_found k id input d ≡ show_merged k id input p d
  unfolding update_found
  update_found-show_merged input p d e = rw e (rw (previous_content-keeps k id d) refl)

  -- A patch succeeds only on a content that is known.
  update_found-known :
      (input : UpdateInput) (d : Device Sys)
      → (update_found k id input d).0 ≡ ok tt
      → (p : Props) × ((previous_content k id d).0 ≡ ok (some p))
  unfolding update_found
  update_found-known input d h = elim (Result-split (previous_content k id d).0) [
    | inl (none, e) ↦ ground arith
    | inl (some p, e) ↦ (p, e)
    | inr (x, e) ↦ ground arith
  ]

  -- The device after the search for the activity
  abbrev pub found : Device Sys → Device Sys
  found d = (find_instance k id d).1

  update_activity-found :
      (input : UpdateInput) (d : Device Sys)
      → (update_activity k id input d).0 ≡ ok tt
      → update_activity k id input d ≡ update_found k id input (found d)
  unfolding update_activity
  update_activity-found input d h = ground arith

-- An update that succeeds has found the content to patch, in memory or in the secure store, and the
-- phone now shows the patched content, also where the patched content could not be saved.
pub update_activity-shows :
    {Sys : Type 0} (k : Kit Sys) (lawful : IsLawful k) (id : String) (input : UpdateInput)
    (d : Device Sys)
    → (update_activity k id input d).0 ≡ ok tt
    → (p : Props) × ((previous_content k id (found k id d)).0 ≡ ok (some p))
      × (k.shows (update_activity k id input d).1.system id
          ≡ some (updated_content p input (k.now d.system)))
update_activity-shows k lawful id input d h =
    let step = update_activity-found k id input d h in
    let done : (update_found k id input (found k id d)).0 ≡ ok tt = ap (λ r. r.0) (sym step) ∙ h in
    let (p, known) = update_found-known k id input (found k id d) done in
    let merge = update_found-show_merged k id input p (found k id d) known in
    let merged : (show_merged k id input p (found k id d)).0 ≡ ok tt =
      ap (λ r. r.0) (sym merge) ∙ done in
    let (kept, same) = find_instance-keeps k id id d in
    (
      p,
      known,
      rw (step, merge)
          ((show_merged-shows k lawful id input p (found k id d) id merged).1
            ∙ put_self id _ (k.shows (found k id d).system)
            ∙ ap (λ s. some (updated_content p input (k.now s))) same),
    )

previous_content-read :
    {Sys : Type 0} (k : Kit Sys) (lawful : IsLawful k) (id : String) (q : Props) (d : Device Sys)
    → d.last_props id ≡ none
    → (previous_content k id d).0 ≡ ok (some q)
    → parse_saved_content k.format (k.holds d.system id) ≡ some q
unfolding previous_content
previous_content-read k lawful id q d forgotten h = elim (Result-split (k.read id d.system)) [
  | inl (t, e) ↦ rw (sym (lawful.read_holds id d.system t e)) (ground (arith, forgotten))
  | inr (x, e) ↦ ground (arith, forgotten)
]

launch-previous :
    {Sys : Type 0} (k : Kit Sys) (lawful : IsLawful k) (id text : String) (p q : Props) (s : Sys)
    → k.format.parse text ≡ some p
    → truthy text ≡ true
    → k.holds s id ≡ some text
    → (previous_content k id (found k id (launch k s))).0 ≡ ok (some q)
    → parse_saved_content k.format (some text) ≡ some q
unfolding launch
launch-previous k lawful id text p q s reads nonempty held h =
    let (kept, same) = find_instance-keeps k id id (launch k s) in
    rw (sym held, sym same) (previous_content-read k lawful id q (found k id (launch k s)) kept h)

parse_saved_content-reads :
    (f : Format) (text : String) (p q : Props)
    → f.parse text ≡ some p
    → truthy text ≡ true
    → parse_saved_content f (some text) ≡ some q
    → q ≡ p
unfolding parse_saved_content
parse_saved_content-reads f text p q reads nonempty h = ground arith

-- After a restart of the app the first update patches the content that was saved last, where the
-- activity still runs and the saved text reads back as what was written.
pub update_activity-launch :
    {Sys : Type 0} (k : Kit Sys) (lawful : IsLawful k) (id : String) (input : UpdateInput)
    (p : Props) (s : Sys)
    → k.format.parse (k.format.stringify p) ≡ some p
    → truthy (k.format.stringify p) ≡ true
    → k.holds s id ≡ some (k.format.stringify p)
    → (update_activity k id input (launch k s)).0 ≡ ok tt
    → k.shows (update_activity k id input (launch k s)).1.system id
      ≡ some (updated_content p input (k.now s))
unfolding launch
update_activity-launch k lawful id input p s reads nonempty held h =
    let (q, known, shown) = update_activity-shows k lawful id input (launch k s) h in
    let parsed =
      launch-previous k lawful id (k.format.stringify p) p q s reads nonempty held known in
    let same =
      parse_saved_content-reads k.format (k.format.stringify p) p q reads nonempty parsed in
    shown ∙ ap (λ (c : Props). some (updated_content c input (k.now s))) {x = q} {y = p} same

end_found-forgets :
    {Sys : Type 0} (k : Kit Sys) (id : String) (there : Bool) (d d' : Device Sys)
    → d.system ≡ d'.system
    → ((end_found k id there d).1.last_props id ≡ none)
      × ((end_found k id there d).1.instances id ≡ false)
      × ((end_found k id there d).0 ≡ (if there then (k.end id d'.system).0 else ok tt))
unfolding end_found
end_found-forgets k id true d d' same =
    (put_self id none d.last_props, put_self id false d.instances, ap (λ s. (k.end id s).0) same)
end_found-forgets k id false d d' same =
    (put_self id none d.last_props, put_self id false d.instances, refl)

-- Ending an activity forgets it, whether or not the system could end it, and passes on the system's
-- error; for an activity that is not there it is a success without a call of the system.
pub end_activity-forgets :
    {Sys : Type 0} (k : Kit Sys) (id : String) (d : Device Sys) (there : Bool)
    → (find_instance k id d).0 ≡ ok there
    → ((end_activity k id d).1.last_props id ≡ none)
      × ((end_activity k id d).1.instances id ≡ false)
      × ((end_activity k id d).0 ≡ (if there then (k.end id d.system).0 else ok tt))
unfolding end_activity
end_activity-forgets k id d there e =
    rw e (end_found-forgets k id there (found k id d) d (find_instance-keeps k id id d).1)
