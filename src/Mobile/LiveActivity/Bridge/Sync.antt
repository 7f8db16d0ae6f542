-- ===== src/Mobile/LiveActivity/Bridge/Sync.antt =====
-- The content that the bridge remembers is the one that the phone shows.
use unity_runn.Prelude.{
  String, ◌≡◌, List, [], ◌∷◌, Option, none, some, Bool, true, false, refl, str_eq, inl, inr, ◌∙◌,
  if◌then◌else◌,
}
use unity_runn.Exec.{Failure, Result-cases, Result-split, ◌>>=◌, pure, given, raise, branch}
use unity_runn.Exec.Keeps.{
  Keeps, Keeps-bind, Keeps-given, Keeps-raise, Keeps-branch, Keeps-catching, keeps_rules,
}
use unity_runn.Mobile.LiveActivity.Content.{StartInput, UpdateInput, Props}
use unity_runn.Mobile.LiveActivity.Bridge.{
  Kit, Device, put, find_instance, abandon, save_or_end, awaiting_token, started, start_activity,
  previous_content, show_merged, update_found, update_activity, end_found, end_activity,
  get_push_token, remembered, save, not_running, no_saved_content,
}
use unity_runn.Mobile.LiveActivity.Bridge.Laws.{
  IsLawful, show_merged-shows, show_merged-fails, find_instance-keeps, previous_content-keeps,
  first_content, launched, start_activity-started, start_activity-refused,
}

-- The content that the bridge remembers and the one that the phone shows agree where there are both.
abbrev Agrees : Option Props → Option Props → Type 0
Agrees (some p) (some q) = p ≡ q
Agrees _ _ = Unit

abbrev pub InSync : {Sys : Type 0} → Kit Sys → Device Sys → Type 0
InSync k d = (id : String) → Agrees (d.last_props id) (k.shows d.system id)

Agrees-put :
    (b : Bool) (p : Props) (x y : Option Props)
    → Agrees x y
    → Agrees (if b then some p else x) (if b then some p else y)
Agrees-put true p x y h = refl
Agrees-put false p x y h = h

Agrees-clear :
    (b : Bool) (x y z : Option Props)
    → (b ≡ false → z ≡ y)
    → Agrees x y
    → Agrees (if b then none else x) z
Agrees-clear true x y z e h = tt
Agrees-clear false x y z e h = rw (e refl) h

module _ {Sys : Type 0} (k : Kit Sys) (lawful : IsLawful k) where
  show_merged-InSync :
      (id : String) (input : UpdateInput) (p : Props) (d : Device Sys)
      → InSync k d
      → InSync k (show_merged k id input p d).1
  show_merged-InSync id input p d h j = elim (Result-cases (show_merged k id input p d).0) [
    | inl shown ↦
        let (kept, same) = show_merged-shows k lawful id input p d j shown in
        rw (kept, same) (Agrees-put (str_eq id j) _ _ _ (h j))
    | inr (e, failed) ↦
        let (kept, same) = show_merged-fails k lawful id input p d e j failed in
        rw (kept, same) (h j)
  ]

  find_instance-InSync :
      (id : String) (d : Device Sys) → InSync k d → InSync k (find_instance k id d).1
  find_instance-InSync id d h j =
      let (kept, same) = find_instance-keeps k id j d in rw (kept, same) (h j)

  update_found-InSync :
      (id : String) (input : UpdateInput) (d : Device Sys)
      → InSync k d
      → InSync k (update_found k id input d).1
  unfolding update_found
  update_found-InSync id input d h =
      (Keeps-bind (previous_content k id)
          (λ o. given o (raise no_saved_content) (show_merged k id input))
          (record { at = λ d h. rw (previous_content-keeps k id d) h })
          (λ o.
            Keeps-given o (raise no_saved_content) (show_merged k id input)
              (Keeps-raise no_saved_content)
              (λ p. record { at = show_merged-InSync id input p }))).at
        d h

  update_activity-InSync :
      (id : String) (input : UpdateInput) (d : Device Sys)
      → InSync k d
      → InSync k (update_activity k id input d).1
  unfolding update_activity
  update_activity-InSync id input d h =
      (Keeps-bind (find_instance k id)
          (λ found. branch found (update_found k id input) (raise (not_running id)))
          (record { at = find_instance-InSync id })
          (λ found.
            Keeps-branch found (update_found k id input) (raise (not_running id))
              (record { at = update_found-InSync id input }) (Keeps-raise (not_running id)))).at
        d h

  end_found-shows :
      (id : String) (found : Bool) (d : Device Sys) (j : String)
      → ((end_found k id found d).1.last_props j ≡ put id none d.last_props j)
        × (str_eq id j ≡ false → k.shows (end_found k id found d).1.system j ≡ k.shows d.system j)
  unfolding end_found
  end_found-shows id true d j = (
    refl,
    λ other. lawful.delete_shows id (k.end id d.system).1 j ∙ lawful.end_other id d.system j other,
  )
  end_found-shows id false d j = (refl, λ other. lawful.delete_shows id d.system j)

  end_found-InSync :
      (id : String) (found : Bool) (d : Device Sys)
      → InSync k d
      → InSync k (end_found k id found d).1
  end_found-InSync id found d h j =
      let (kept, same) = end_found-shows id found d j in
      rw kept (Agrees-clear (str_eq id j) _ _ _ same (h j))

  end_activity-InSync :
      (id : String) (d : Device Sys) → InSync k d → InSync k (end_activity k id d).1
  unfolding end_activity
  end_activity-InSync id d h =
      (Keeps-bind (find_instance k id) (end_found k id) (record { at = find_instance-InSync id })
          (λ found. record { at = end_found-InSync id found })).at
        d h

  save-InSync : (id : String) (p : Props) → Keeps (InSync k) (save k id p)
  save-InSync id p = record {
    at = λ d h j. rw (lawful.write_shows id (k.format.stringify p) d.system j) (h j);
  }

  abandon-InSync : (id : String) (e : Failure) → Keeps (InSync k) (abandon k id e)
  unfolding abandon
  abandon-InSync id e = record {
    at = λ d h j. Agrees-clear (str_eq id j) _ _ _ (lawful.end_other id d.system j) (h j);
  }

  save_or_end-InSync : (id : String) (p : Props) → Keeps (InSync k) (save_or_end k id p)
  unfolding save_or_end
  save_or_end-InSync id p =
      Keeps-catching (save k id p) (abandon k id) (save-InSync id p) (abandon-InSync id)

  awaiting_token-InSync : (id : String) → Keeps (InSync k) (awaiting_token k id)
  awaiting_token-InSync id = record {
    at = λ d h j. rw (lawful.push_token_shows id d.system j) (h j);
  }

  -- The activity that the system has just started is in step once it is remembered.
  started-InSync :
      (p : Props) (id : String) (d : Device Sys)
      → InSync k (remembered id p d)
      → InSync k (started k p id d).1
  unfolding started
  started-InSync p id d h =
      (Keeps-bind (save_or_end k id p)
          (λ _.
            awaiting_token k id >>= λ token. pure (record { activity_id = id; push_token = token }))
          (save_or_end-InSync id p) (λ _. search (keeps_rules, awaiting_token-InSync))).at
        (remembered id p d) h

  start_activity-InSync :
      (input : StartInput) (d : Device Sys) → InSync k d → InSync k (start_activity k input d).1
  start_activity-InSync input d h =
      let p = first_content k input d in
      elim (Result-split (k.start p d.system).0) [
        | inl (id, e) ↦ rw (start_activity-started k input d id e) (
            started-InSync p id (launched k input d) (λ j.
              rw (lawful.start_shows p d.system id j e) (Agrees-put (str_eq id j) _ _ _ (h j))))
        | inr (x, e) ↦
            rw (start_activity-refused k input d x e)
              (λ j. rw (lawful.start_fails p d.system j x e) (h j))
      ]

  get_push_token-InSync :
      (id : String) (d : Device Sys) → InSync k d → InSync k (get_push_token k id d).1
  unfolding get_push_token
  get_push_token-InSync id d h =
      (Keeps-bind (find_instance k id)
          (λ found. branch found (λ d. (k.token id d.system, d)) (pure none))
          (record { at = find_instance-InSync id })
          (λ found.
            Keeps-branch found (λ d. (k.token id d.system, d)) (pure none)
              (record { at = λ d h. h }) (record { at = λ d h. h }))).at
        d h

-- The calls of the bridge
pub data BridgeCall : Type 0 where
  start : StartInput → BridgeCall
  update : String → UpdateInput → BridgeCall
  end : String → BridgeCall
  token : String → BridgeCall

module _ {Sys : Type 0} (k : Kit Sys) where
  unfoldable pub bridge_call : BridgeCall → Device Sys → Device Sys
  bridge_call (start input) d = (start_activity k input d).1
  bridge_call (update id input) d = (update_activity k id input d).1
  bridge_call (end id) d = (end_activity k id d).1
  bridge_call (token id) d = (get_push_token k id d).1

  unfoldable pub bridge_run : List BridgeCall → Device Sys → Device Sys
  bridge_run [] d = d
  bridge_run (c ∷ cs) d = bridge_run cs (bridge_call c d)

-- Through every sequence of calls, with whatever failures of the system and of the secure store, the
-- content that the bridge remembers of an activity is the one that the phone shows of it, so that the
-- next patch is made to what is shown.
pub bridge_run-InSync :
    {Sys : Type 0} (k : Kit Sys) (lawful : IsLawful k) (cs : List BridgeCall) (d : Device Sys)
    → InSync k d
    → InSync k (bridge_run k cs d)
unfolding bridge_run bridge_call
bridge_run-InSync k lawful [] d h = h
bridge_run-InSync k lawful (start i ∷ cs) d h =
    bridge_run-InSync k lawful cs _ (start_activity-InSync k lawful i d h)
bridge_run-InSync k lawful (update id i ∷ cs) d h =
    bridge_run-InSync k lawful cs _ (update_activity-InSync k lawful id i d h)
bridge_run-InSync k lawful (end id ∷ cs) d h =
    bridge_run-InSync k lawful cs _ (end_activity-InSync k lawful id d h)
bridge_run-InSync k lawful (token id ∷ cs) d h =
    bridge_run-InSync k lawful cs _ (get_push_token-InSync k lawful id d h)
