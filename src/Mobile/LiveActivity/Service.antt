-- ===== src/Mobile/LiveActivity/Service.antt =====
-- mobile/services/liveActivity/raceLiveActivity.service.ts, over a native bridge and a session that are
-- parameters: during each call that is awaited, other tasks may change the state too.
pub mod Overlap
pub mod Reports
pub mod Follow
mod Examples
use Prim.Native.String
use unity_runn.Prelude.{
  ℕ, ◌+◌, ◌-◌, String, Option, none, some, List, [], ◌∷◌, Bool, true, false, not, ◌&&◌, ◌==◌,
  str_eq, any, keep, truthy, or_else, if◌then◌else◌, ◌⊎◌, inl, inr,
}
use unity_runn.Exec.{
  Failure, api, unsupported, plain, foreign, Result, ok, err, Exec, pure, raise, modify, when,
  catching, settle, finally, branch, given, ◌>>=◌, ◌>>◌,
}
use unity_runn.Mobile.LiveActivity.Content.{RaceState, StartInput, UpdateInput}
use unity_runn.Mobile.LiveActivity.Content.RaceState.{
  upcoming, check_in, starting, live, finished, cancelled,
}
use unity_runn.Mobile.LiveActivity.Bridge.{Started}

-- `RaceLiveActivityData`: an event's id beside what the native bridge shows
pub record RaceData : Type 0 where
  pub event_id : String
  pub content : StartInput

pub record FollowOptions : Type 0 where
  pub registration_id : Option String
  pub device_id : Option String

-- The body of the request that follows an event
pub record FollowBody : Type 0 where
  pub event_id : String
  pub registration_id : Option String
  pub activity_id : String
  pub push_token : String
  pub device_id : String
  pub platform : String

-- `LiveActivityRecord`, as far as the service reads it
pub record ActivityRecord : Type 0 where
  pub id : String
  pub activity_id : String

pub record ActivityRef : Type 0 where
  pub id : String
  pub activity_id : String

pub data Reason : Type 0 where
  unsupported_device not_ios permission_denied already_following not_found network_error : Reason

pub record ActivityError : Type 0 where
  pub message : String
  pub reason : Reason

abbrev pub state_to_backend : RaceState → String
state_to_backend upcoming = "UPCOMING"
state_to_backend check_in = "CHECK_IN"
state_to_backend starting = "STARTING"
state_to_backend live = "LIVE"
state_to_backend finished = "FINISHED"
state_to_backend cancelled = "CANCELLED"

unfoldable pub wrap : Failure → ActivityError
wrap (unsupported m) = record { message = m; reason = unsupported_device }
wrap (api e) = record {
  message = e.message;
  reason =
      if str_eq e.code "already_following"
      then already_following
      else if e.status == 404
      then not_found
      else network_error;
}
wrap (plain m) = record { message = m; reason = network_error }
wrap (foreign b) = record { message = "Something went wrong."; reason = network_error }

-- The two counters of the module, beside all other state.
pub record Service (S : Type 0) : Type 0 where
  pub starts_in_flight : ℕ
  pub start_generation : ℕ
  pub outer : S

-- The native bridge and the session's requests
pub record Calls (S : Type 0) : Type 0 where
  pub is_supported : Exec (Service S) Bool
  pub start : RaceData → Exec (Service S) Started
  pub update : String → UpdateInput → Exec (Service S) (Unit {0})
  pub end : String → Exec (Service S) (Unit {0})
  pub push_token : String → Exec (Service S) (Option String)
  pub running : Exec (Service S) (List String)
  pub post : String → FollowBody → Exec (Service S) ActivityRecord
  -- with the race status as its body
  pub patch : String → String → Exec (Service S) ActivityRecord
  pub delete : String → Exec (Service S) (Unit {0})
  pub list : String → Exec (Service S) (List ActivityRecord)

abbrev pub path : String
path = "/api/v1/live-activities"

abbrev pub path_of : String → String
path_of id = String.◌++◌ path (String.◌++◌ "/" id)

abbrev pub Wrapped : Type 0 → Type 0
Wrapped A = A ⊎ ActivityError

abbrev pub wrapped : {A : Type 0} → Result A → Wrapped A
wrapped (ok a) = inl a
wrapped (err e) = inr (wrap e)

abbrev pub not_available : Failure
not_available = unsupported "Live Activities are not available in this build yet."

abbrev pub follow_body : RaceData → FollowOptions → Started → FollowBody
follow_body data_ opts n = record {
  event_id = data_.event_id;
  registration_id = opts.registration_id;
  activity_id = n.activity_id;
  push_token = n.push_token;
  device_id = or_else opts.device_id "";
  platform = "ios";
}

abbrev known : List ActivityRecord → String → Bool
known active id = any (λ (r : ActivityRecord). str_eq r.activity_id id) active

-- The activities on the phone that the backend does not know.
abbrev pub orphans : List ActivityRecord → List String → List String
orphans active ids = keep (λ id. not (known active id)) ids

module _ {S : Type 0} where
  abbrev pub begin_start : Service S → Service S
  begin_start w = record w {
    starts_in_flight = w.starts_in_flight + 1;
    start_generation = w.start_generation + 1;
  }

  abbrev pub end_start : Service S → Service S
  end_start w = record w {
    starts_in_flight = w.starts_in_flight - 1;
    start_generation = w.start_generation + 1;
  }

  -- `catch (error) { throw wrap(error) }`
  abbrev pub wrapping : {A : Type 0} → Exec (Service S) A → Service S → Wrapped A × Service S
  wrapping m w = (wrapped (m w).0, (m w).1)

abbrev pub running_ids : Result (List String) → List String
running_ids (ok ids) = ids
running_ids (err e) = []

-- No start is in flight, and none has begun or ended since that generation.
abbrev pub quiet : {S : Type 0} → ℕ → Service S → Bool
quiet generation w = w.starts_in_flight == 0 && generation == w.start_generation

module _ {S : Type 0} (c : Calls S) where
  -- The catch of `start`: an activity that is shown but not followed is ended.
  unfoldable pub unfollow : Started → Failure → Exec (Service S) ActivityRecord
  unfollow n e = do when (truthy n.activity_id) (settle (c.end n.activity_id) >> pure tt); raise e

  unfoldable pub follow : RaceData → FollowOptions → Started → Exec (Service S) ActivityRecord
  follow data_ opts n = catching (c.post path (follow_body data_ opts n)) (unfollow n)

  unfoldable pub start_native : RaceData → FollowOptions → Exec (Service S) ActivityRecord
  start_native data_ opts = do
    supported ← c.is_supported
    branch supported (c.start data_ >>= follow data_ opts) (raise not_available)

  unfoldable pub start : RaceData → FollowOptions → Service S → Wrapped ActivityRecord × Service S
  start data_ opts w = wrapping (finally (start_native data_ opts) end_start) (begin_start w)

  unfoldable pub send_status : String → Option RaceState → Exec (Service S) (Option ActivityRecord)
  send_status id status =
      given status (pure none)
        (λ s. c.patch (path_of id) (state_to_backend s) >>= λ r. pure (some r))

  unfoldable pub update :
      ActivityRef → UpdateInput → Service S → Wrapped (Option ActivityRecord) × Service S
  update ref patch =
      wrapping (c.update ref.activity_id patch >> send_status ref.id patch.race_status)

  unfoldable pub finish :
      ActivityRef → String → Service S → Wrapped (Option ActivityRecord) × Service S
  finish ref finish_time = update ref (record {
    race_status = some finished;
    distance_km = none;
    elapsed_seconds = none;
    pace = none;
    finish_time = some finish_time;
  })

  unfoldable pub end : ActivityRef → Service S → Wrapped (Unit {0}) × Service S
  end ref = wrapping (settle (c.end ref.activity_id) >> c.delete (path_of ref.id))

  unfoldable pub dismiss : List String → Service S → Service S
  dismiss [] w = w
  dismiss (id ∷ ids) w = dismiss ids (c.end id w).1

  unfoldable pub reconcile_orphans : List ActivityRecord → List String → Service S → Service S
  reconcile_orphans active ids = dismiss (orphans active ids)

  -- The service does not await `reconcileOrphans`; here its calls follow at once, one after the other.
  unfoldable pub snapshot :
      ℕ → List String → List ActivityRecord → Exec (Service S) (List ActivityRecord)
  snapshot generation ids active w =
      (ok active, if quiet generation w then reconcile_orphans active ids w else w)

  unfoldable pub get_active : Service S → Wrapped (List ActivityRecord) × Service S
  get_active w =
      let generation = w.start_generation in
      wrapping (settle c.running >>= λ ids. c.list path >>= snapshot generation (running_ids ids)) w

  unfoldable pub restore : Service S → Wrapped (List ActivityRecord) × Service S
  restore = get_active

  abbrev token_or_none : Result (Option String) → Option String
  token_or_none (ok t) = t
  token_or_none (err e) = none

  unfoldable pub get_push_token : String → Service S → Option String × Service S
  get_push_token id w = (token_or_none (c.push_token id w).0, (c.push_token id w).1)
