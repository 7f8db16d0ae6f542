-- ===== src/Mobile/LiveActivity/Bridge.antt =====
-- mobile/services/liveActivity/nativeBridge.ios.ts: the bridge to the live activities of the phone, which
-- keeps the last content of each activity and saves it for the time after a restart of the app. What
-- ActivityKit and the secure store do is a parameter.
pub mod Laws
pub mod Sync
pub mod Outcomes
use Prim.Native.String
use unity_runn.Prelude.{
  ℕ, String, Option, none, some, List, [], Bool, true, false, str_eq, any, if◌then◌else◌,
}
use unity_runn.Exec.{
  Failure, api, unsupported, plain, foreign, Result, ok, err, Exec, pure, raise, gets, modify,
  catching, settle, branch, given, ◌>>=◌, ◌>>◌,
}
use unity_runn.Mobile.LiveActivity.Content.{
  StartInput, UpdateInput, Props, Format, initial_content, updated_content, parse_saved_content,
}

-- ActivityKit and the secure store, over a state of theirs; `shows` and `holds` say what can be seen of
-- it: the content of each activity that runs, and the text that is saved for it.
pub record Kit (Sys : Type 0) : Type 0 where
  pub shows : Sys → String → Option Props
  pub holds : Sys → String → Option String
  pub start : Props → Sys → Result String × Sys
  pub list : Sys → Result (List String)
  pub update : String → Props → Sys → Result (Unit {0}) × Sys
  pub end : String → Sys → Result (Unit {0}) × Sys
  pub push_token : String → Sys → String × Sys
  pub token : String → Sys → Result (Option String)
  pub write : String → String → Sys → Result (Unit {0}) × Sys
  pub read : String → Sys → Result (Option String)
  pub delete : String → Sys → Result (Unit {0}) × Sys
  pub now : Sys → ℕ
  pub format : Format

-- The two maps of the module, and the system.
pub record Device (Sys : Type 0) : Type 0 where
  pub instances : String → Bool
  pub last_props : String → Option Props
  pub system : Sys

abbrev pub put {ℓ} : {A : Type ℓ} → String → A → (String → A) → String → A
put k v f j = if str_eq k j then v else f j

-- `new LiveActivityUnsupportedError(error instanceof Error ? error.message : ...)`
abbrev pub as_unsupported : Failure → Failure
as_unsupported (api e) = unsupported e.message
as_unsupported (unsupported m) = unsupported m
as_unsupported (plain m) = unsupported m
as_unsupported (foreign b) = unsupported "Live Activities are not available on this device."

abbrev pub no_saved_content : Failure
no_saved_content = plain "Cannot update a restored Live Activity without its saved content."

abbrev pub not_running : String → Failure
not_running id = unsupported (String.◌++◌ "No running Live Activity with id " (String.◌++◌ id "."))

abbrev pub listed : List String → String → Bool
listed ids id = any (λ j. str_eq j id) ids

pub record Started : Type 0 where
  pub activity_id : String
  pub push_token : String

abbrev pub listing : Result (List String) → List String
listing (ok ids) = ids
listing (err e) = []

module _ {Sys : Type 0} where
  -- `instances.delete(id); lastProps.delete(id)`
  abbrev pub forgotten : String → Device Sys → Device Sys
  forgotten id d = record d {
    instances = put id false d.instances;
    last_props = put id none d.last_props;
  }

  abbrev pub remembered : String → Props → Device Sys → Device Sys
  remembered id p d = record d {
    instances = put id true d.instances;
    last_props = put id (some p) d.last_props;
  }

  -- A call of the system
  abbrev pub calling : {A : Type 0} → (Sys → A × Sys) → Device Sys → A × Device Sys
  calling f d = ((f d.system).0, record d { system = (f d.system).1 })

module _ {Sys : Type 0} (k : Kit Sys) where
  -- The start of the app: the maps are new, and the activities that still run are found again.
  unfoldable pub launch : Sys → Device Sys
  launch s = record { instances = listed (listing (k.list s)); last_props = λ id. none; system = s }

  unfoldable pub find_instance : String → Exec (Device Sys) Bool
  find_instance id d = if d.instances id then (ok true, d) else elim (k.list d.system) [
    | ok ids ↦
        if listed ids id
        then (ok true, record d { instances = put id true d.instances })
        else (ok false, d)
    | err e ↦ (err e, d)
  ]

  abbrev pub kit_end : String → Exec (Device Sys) (Unit {0})
  kit_end id = calling (k.end id)

  abbrev pub save : String → Props → Exec (Device Sys) (Unit {0})
  save id p = calling (k.write id (k.format.stringify p))

  -- An activity whose content could not be saved is ended again.
  unfoldable pub abandon : String → Failure → Exec (Device Sys) (Unit {0})
  abandon id error = do settle (kit_end id); modify (forgotten id); raise error

  unfoldable pub save_or_end : String → Props → Exec (Device Sys) (Unit {0})
  save_or_end id props = catching (save id props) (abandon id)

  abbrev pub awaiting_token : String → Exec (Device Sys) String
  awaiting_token id d =
      (ok (k.push_token id d.system).0, record d { system = (k.push_token id d.system).1 })

  -- After `raceActivity.start`: the maps, the saved content, and the push token.
  unfoldable pub started : Props → String → Exec (Device Sys) Started
  started props id = do
    modify (remembered id props)
    save_or_end id props
    token ← awaiting_token id
    pure (record { activity_id = id; push_token = token })

  unfoldable pub start_activity : StartInput → Exec (Device Sys) Started
  start_activity input d =
      let props = initial_content input (k.now d.system) in
      (catching (calling (k.start props)) (λ error. raise (as_unsupported error)) >>= started props)
        d

  -- `lastProps.get(id) ?? parseSavedContent(...)`
  unfoldable pub previous_content : String → Exec (Device Sys) (Option Props)
  previous_content id d = elim (d.last_props id) [
    | some p ↦ (ok (some p), d)
    | none ↦ elim (k.read id d.system) [
      | ok text ↦ (ok (parse_saved_content k.format text), d)
      | err e ↦ (err e, d)
    ]
  ]

  -- The content that was shown counts, also where it cannot be saved.
  unfoldable pub show_merged : String → UpdateInput → Props → Exec (Device Sys) (Unit {0})
  show_merged id input previous = do
    now ← gets (λ d. k.now d.system)
    let merged = updated_content previous input now
    calling (k.update id merged)
    modify (λ d. record d { last_props = put id (some merged) d.last_props })
    settle (save id merged)
    pure tt

  unfoldable pub update_found : String → UpdateInput → Exec (Device Sys) (Unit {0})
  update_found id input = do
    previous ← previous_content id
    given previous (raise no_saved_content) (show_merged id input)

  unfoldable pub update_activity : String → UpdateInput → Exec (Device Sys) (Unit {0})
  update_activity id input = do
    found ← find_instance id
    branch found (update_found id input) (raise (not_running id))

  -- The `finally` of `end`: the maps and the saved content are cleared however the call ended.
  unfoldable pub end_found : String → Bool → Exec (Device Sys) (Unit {0})
  end_found id found d =
      let ended : Result (Unit {0}) × Device Sys = branch found (kit_end id) (pure tt) d in
      (ended.0, (calling (k.delete id) (forgotten id ended.1)).1)

  unfoldable pub end_activity : String → Exec (Device Sys) (Unit {0})
  end_activity id = do found ← find_instance id; end_found id found

  unfoldable pub get_push_token : String → Exec (Device Sys) (Option String)
  get_push_token id = do
    found ← find_instance id
    branch found (λ d. (k.token id d.system, d)) (pure none)

  unfoldable pub running_ids : Exec (Device Sys) (List String)
  running_ids d = (ok (listing (k.list d.system)), d)
