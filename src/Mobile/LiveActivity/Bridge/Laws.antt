-- ===== src/Mobile/LiveActivity/Bridge/Laws.antt =====
-- What the bridge guarantees of the content that the phone shows.
use unity_runn.Prelude.{String, ◌≡◌, Option, none, some, false, refl, arith, str_eq}
use unity_runn.Exec.{Failure, ok, err}
use unity_runn.Mobile.LiveActivity.Content.{
  StartInput, UpdateInput, Props, initial_content, updated_content,
}
use unity_runn.Mobile.LiveActivity.Bridge.{
  Kit, Device, put, as_unsupported, find_instance, started, start_activity, previous_content,
  show_merged,
}

-- What is documented of ActivityKit and of the secure store: a call that succeeds has its effect on the
-- activity or the key that it names, and on nothing else; a call of the one does not touch the other.
pub record IsLawful {Sys : Type 0} (k : Kit Sys) : Type 0 where
  pub start_shows :
      (p : Props) (s : Sys) (id j : String)
      → (k.start p s).0 ≡ ok id
      → k.shows (k.start p s).1 j ≡ put id (some p) (k.shows s) j
  pub update_shows :
      (id : String) (p : Props) (s : Sys) (j : String)
      → (k.update id p s).0 ≡ ok tt
      → k.shows (k.update id p s).1 j ≡ put id (some p) (k.shows s) j
  pub update_fails :
      (id : String) (p : Props) (s : Sys) (j : String) (e : Failure)
      → (k.update id p s).0 ≡ err e
      → k.shows (k.update id p s).1 j ≡ k.shows s j
  pub update_holds :
      (id : String) (p : Props) (s : Sys) (j : String) → k.holds (k.update id p s).1 j ≡ k.holds s j
  pub end_shows :
      (id : String) (s : Sys) (j : String)
      → (k.end id s).0 ≡ ok tt
      → k.shows (k.end id s).1 j ≡ put id none (k.shows s) j
  pub end_other :
      (id : String) (s : Sys) (j : String)
      → str_eq id j ≡ false
      → k.shows (k.end id s).1 j ≡ k.shows s j
  pub start_fails :
      (p : Props) (s : Sys) (j : String) (e : Failure)
      → (k.start p s).0 ≡ err e
      → k.shows (k.start p s).1 j ≡ k.shows s j
  pub write_shows :
      (id t : String) (s : Sys) (j : String) → k.shows (k.write id t s).1 j ≡ k.shows s j
  pub write_holds :
      (id t : String) (s : Sys)
      → (k.write id t s).0 ≡ ok tt
      → k.holds (k.write id t s).1 id ≡ some t
  pub delete_shows :
      (id : String) (s : Sys) (j : String) → k.shows (k.delete id s).1 j ≡ k.shows s j
  pub push_token_shows :
      (id : String) (s : Sys) (j : String) → k.shows (k.push_token id s).1 j ≡ k.shows s j
  pub read_holds :
      (id : String) (s : Sys) (t : Option String) → k.read id s ≡ ok t → t ≡ k.holds s id

module _ {Sys : Type 0} (k : Kit Sys) (lawful : IsLawful k) where
  pub show_merged-shows :
      (id : String) (input : UpdateInput) (p : Props) (d : Device Sys) (j : String)
      → (show_merged k id input p d).0 ≡ ok tt
      → let c = some (updated_content p input (k.now d.system)) in
        let d' = (show_merged k id input p d).1 in
        (d'.last_props j ≡ put id c d.last_props j)
        × (k.shows d'.system j ≡ put id c (k.shows d.system) j)
  unfolding show_merged
  show_merged-shows id input p d j h =
      let c = updated_content p input (k.now d.system) in
      let s = (k.update id c d.system).1 in
      ground (
        arith,
        lawful.update_shows id c d.system j,
        lawful.write_shows id (k.format.stringify c) s j,
      )

  -- A content that could not be shown is not remembered either.
  pub show_merged-fails :
      (id : String) (input : UpdateInput) (p : Props) (d : Device Sys) (e : Failure) (j : String)
      → (show_merged k id input p d).0 ≡ err e
      → let d' = (show_merged k id input p d).1 in
        (d'.last_props j ≡ d.last_props j) × (k.shows d'.system j ≡ k.shows d.system j)
  unfolding show_merged
  show_merged-fails id input p d e j h =
      let c = updated_content p input (k.now d.system) in
      ground (arith, lawful.update_fails id c d.system j e)

module _ {Sys : Type 0} (k : Kit Sys) where
  pub find_instance-keeps :
      (id j : String) (d : Device Sys)
      → ((find_instance k id d).1.last_props j ≡ d.last_props j)
        × ((find_instance k id d).1.system ≡ d.system)
  unfolding find_instance
  find_instance-keeps id j d = ground arith

  pub previous_content-keeps : (id : String) (d : Device Sys) → (previous_content k id d).1 ≡ d
  unfolding previous_content
  previous_content-keeps id d = ground arith

  -- The content of a new activity
  abbrev pub first_content : StartInput → Device Sys → Props
  first_content input d = initial_content input (k.now d.system)

  abbrev pub launched : StartInput → Device Sys → Device Sys
  launched input d = record d { system = (k.start (first_content input d) d.system).1 }

  pub start_activity-started :
      (input : StartInput) (d : Device Sys) (id : String)
      → (k.start (first_content input d) d.system).0 ≡ ok id
      → start_activity k input d ≡ started k (first_content input d) id (launched input d)
  unfolding start_activity
  start_activity-started input d id e = rw e refl

  pub start_activity-refused :
      (input : StartInput) (d : Device Sys) (e : Failure)
      → (k.start (first_content input d) d.system).0 ≡ err e
      → start_activity k input d ≡ (err (as_unsupported e), launched input d)
  unfolding start_activity
  start_activity-refused input d x e = rw e refl
