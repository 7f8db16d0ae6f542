-- ===== src/Web/CheckIn.antt =====
-- frontend/src/pages/admin/checkin/index.tsx: the station at a race's gate. `toLowerCase`, `trim` and the order of
-- texts that `localeCompare` gives are parameters, and so is the text of the time that an entry is shown with. The
-- sounds, the focus and the time of a result are left out.
pub mod Scans
pub mod Lookups
pub mod Index
pub mod Runs
pub mod Counts
mod Examples
use Prim.Native.String.{slice}
use unity_runn.Prelude.{
  ℕ, zero, suc, ◌-◌, String, Option, none, some, List, [], ◌∷◌, Bool, true, false, not, ◌&&◌, ◌||◌,
  truthy, str_eq, if◌then◌else◌, keep, map, length,
}

pub record Registration : Type 0 where
  pub id : String
  pub event_id : String
  pub registration_number : String
  pub email : String
  pub full_name : String
  pub tshirt_size : String
  pub status : String
  pub checked_in_at : Option String

pub record RaceEvent : Type 0 where
  pub id : String
  pub status : String

pub record RecentCheckin : Type 0 where
  pub name : String
  pub number : String
  pub tshirt : String
  pub time : String

pub data ResultStatus : Type 0 where
  success already_checked_in failed : ResultStatus

pub record ScanResult : Type 0 where
  pub status : ResultStatus
  pub message : String
  pub registration : Option Registration

pub record Texts : Type 0 where
  pub trim : String → String
  pub lower : String → String
  -- `a.localeCompare(b) <= 0`
  pub ordered : String → String → Bool
  -- `new Date(t).toLocaleTimeString(...)`
  pub time_of : String → String

pub record Station : Type 0 where
  pub events : List RaceEvent
  pub selected_event_id : String
  pub registrations : List Registration
  pub manual_token : String
  pub loading : Bool
  pub station_error : Option String
  pub processing : Bool
  pub last_result : Option ScanResult
  pub recent_checkins : List RecentCheckin

abbrev pub has_text : Option String → Bool
has_text none = false
has_text (some t) = truthy t

-- `String(value)` of a value that is there
abbrev text_of : Option String → String
text_of none = "null"
text_of (some t) = t

-- `xs.slice(0, n)`
unfoldable pub take {ℓ} : {A : Type ℓ} → ℕ → List A → List A
take zero xs = []
take (suc n) [] = []
take (suc n) (x ∷ xs) = x ∷ take n xs

module _ (j : Texts) where
  -- The latest check-in stands first.
  abbrev pub not_after : Registration → Registration → Bool
  not_after a b = j.ordered (text_of b.checked_in_at) (text_of a.checked_in_at)

  unfoldable pub insert : Registration → List Registration → List Registration
  insert a [] = a ∷ []
  insert a (b ∷ rs) = let rest = insert a rs in if not_after a b then a ∷ b ∷ rs else b ∷ rest

  unfoldable pub sort : List Registration → List Registration
  sort [] = []
  sort (a ∷ rs) = insert a (sort rs)

  unfoldable pub recent_for_event : List Registration → String → List RecentCheckin
  recent_for_event registrations event_id =
      map
        (λ (r : Registration). record {
          name = r.full_name;
          number = r.registration_number;
          tshirt = r.tshirt_size;
          time = j.time_of (text_of r.checked_in_at);
        })
        (take 15
          (sort (keep (λ r. str_eq r.event_id event_id && has_text r.checked_in_at) registrations)))

-- The entries of a `Map`, the one that was set last first
abbrev pub Index : Type 0
Index = List (String × Registration)

unfoldable pub get : Index → String → Option Registration
get [] key = none
get ((k, r) ∷ index) key = let rest = get index key in if str_eq k key then some r else rest

-- `a ?? b`
abbrev pub or_get : Option Registration → Option Registration → Option Registration
or_get none o = o
or_get (some r) o = some r

abbrev pub set : String → Registration → Index → Index
set key r index = (key, r) ∷ index

module _ (j : Texts) where
  abbrev pub set_keys : Registration → Index → Index
  set_keys r index =
      let by_id = set r.id r index in
      let by_number =
        if truthy r.registration_number
        then set (j.lower r.registration_number) r by_id
        else by_id in
      if truthy r.email then set (j.lower r.email) r by_number else by_number

  abbrev pub index_from : Index → String → List Registration → Index
  index_from index selected [] = index
  index_from index selected (r ∷ rs) =
      index_from (if str_eq r.event_id selected then set_keys r index else index) selected rs

  unfoldable pub registration_index : List Registration → String → Index
  registration_index registrations selected = index_from [] selected registrations

  unfoldable pub resolve_scan_target : Index → String → Option Registration
  resolve_scan_target index token = or_get (get index token) (get index (j.lower token))
