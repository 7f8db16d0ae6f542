-- ===== src/Mobile/LiveActivity/Content.antt =====
-- mobile/services/liveActivity/contentState.ts: the content that a live activity shows. A distance is
-- only copied; it stands for its number of metres.
pub mod Laws
use unity_runn.Prelude.{ℕ, ◌*◌, String, Option, none, some, truthy, if◌then◌else◌}
use unity_runn.Prelude.Int.{ℤ, sub_ℕ}

pub data RaceState : Type 0 where
  upcoming check_in starting live finished cancelled : RaceState

-- `NativeStartInput` without the field `eventId`, which is dropped
pub record StartInput : Type 0 where
  pub event_name : String
  pub location : String
  pub race_distance : Option String
  pub start_time : String
  pub bib_number : Option String
  pub gate : Option String
  pub elapsed_seconds : Option ℕ
  pub distance_km : Option ℕ
  pub pace : Option String
  pub finish_time : Option String
  pub status : RaceState

pub record UpdateInput : Type 0 where
  pub race_status : Option RaceState
  pub distance_km : Option ℕ
  pub elapsed_seconds : Option ℕ
  pub pace : Option String
  pub finish_time : Option String

-- `RaceActivityProps`: the whole content
pub record Props : Type 0 where
  pub event_name : String
  pub location : String
  pub race_distance : Option String
  pub start_time : String
  pub status : RaceState
  pub bib_number : Option String
  pub gate : Option String
  pub elapsed_seconds : Option ℕ
  pub elapsed_started_at : Option ℤ
  pub distance_km : Option ℕ
  pub pace : Option String
  pub finish_time : Option String

-- `now - elapsedSeconds * 1000`, in milliseconds
abbrev pub started_at : ℕ → ℕ → ℤ
started_at now seconds = sub_ℕ now (seconds * 1000)

-- `...(value !== undefined ? { field: value } : {})` over the field `old`
abbrev pub patch {ℓ} : {A : Type ℓ} → Option A → A → A
patch none old = old
patch (some a) old = a

abbrev pub patch? {ℓ} : {A : Type ℓ} → Option A → Option A → Option A
patch? none old = old
patch? (some a) old = some a

abbrev pub timed : Option ℕ → ℕ → Option ℤ → Option ℤ
timed none now old = old
timed (some s) now old = some (started_at now s)

unfoldable pub initial_content : StartInput → ℕ → Props
initial_content input now = record {
  event_name = input.event_name;
  location = input.location;
  race_distance = input.race_distance;
  start_time = input.start_time;
  status = input.status;
  bib_number = input.bib_number;
  gate = input.gate;
  elapsed_seconds = input.elapsed_seconds;
  elapsed_started_at = timed input.elapsed_seconds now none;
  distance_km = input.distance_km;
  pace = input.pace;
  finish_time = input.finish_time;
}

unfoldable pub updated_content : Props → UpdateInput → ℕ → Props
updated_content previous input now = record previous {
  status = patch input.race_status previous.status;
  distance_km = patch? input.distance_km previous.distance_km;
  elapsed_seconds = patch? input.elapsed_seconds previous.elapsed_seconds;
  elapsed_started_at = timed input.elapsed_seconds now previous.elapsed_started_at;
  pace = patch? input.pace previous.pace;
  finish_time = patch? input.finish_time previous.finish_time;
}

-- `JSON.stringify`, and `safeParse(JSON.parse(value))`, which is `none` where either fails
pub record Format : Type 0 where
  pub stringify : Props → String
  pub parse : String → Option Props

unfoldable pub parse_saved_content : Format → Option String → Option Props
parse_saved_content f none = none
parse_saved_content f (some value) = if truthy value then f.parse value else none
