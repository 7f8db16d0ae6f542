-- ===== src/Mobile/Register.antt =====
-- mobile/features/events/RegisterScreen.tsx: entering an event. The answers of the service to the attempts
-- of one submission are a parameter.
pub mod Attempts
pub mod Choice
mod Examples
use Prim.Native.String.{slice}
use Prim.Native.String
use unity_runn.Prelude.{
  ℕ, zero, suc, ◌+◌, ◌*◌, String, Option, none, some, List, [], ◌∷◌, Bool, true, false, not, ◌&&◌,
  ◌||◌, ltb, leb, ◌==◌, truthy, or_else, str_eq, is_some, any, keep, length, if◌then◌else◌,
}
use unity_runn.Exec.{Failure, api, unsupported, plain, foreign, Result, ok, err}
use unity_runn.Mobile.Entries.{
  Category, Times, Availability, registration_deadline_closed, find_category,
}
use unity_runn.Mobile.Payment.{message_of}

-- The fields of the form
pub record Values : Type 0 where
  pub full_name : String
  pub email : String
  pub phone : String
  pub date_of_birth : String
  pub emergency_contact_name : String
  pub emergency_contact_phone : String

pub record Profile : Type 0 where
  pub full_name : Option String
  pub phone : Option String
  pub date_of_birth : Option String
  pub emergency_contact_name : Option String
  pub emergency_contact_phone : Option String
  pub gender : Option String
  pub tshirt_size : Option String

pub record Me : Type 0 where
  pub name : Option String
  pub email : Option String
  pub profile : Option Profile

pub record Checkout : Type 0 where
  pub registration_id : String
  pub status : String

-- What the service returns of an entry, as far as it is read
pub record Entered : Type 0 where
  pub payment : Option Checkout

pub record Payload : Type 0 where
  pub event_category_id : String
  pub values : Values
  pub gender : String
  pub tshirt_size : String

-- The state of the screen, with the payload that was sent last, the number of attempts so far, the
-- milliseconds waited between them, and whether the wallet was opened.
pub record Screen : Type 0 where
  pub category : String
  pub gender : String
  pub tshirt_size : String
  pub submit_error : String
  pub retrying : Bool
  pub payment : Option Checkout
  pub sent : Option Payload
  pub attempts : ℕ
  pub waited : ℕ
  pub opened_wallet : Bool

-- `a || b`
abbrev pub or_text : Option String → String → String
or_text none d = d
or_text (some s) d = if truthy s then s else d

abbrev field : Option Profile → (Profile → Option String) → Option String
field none f = none
field (some p) f = f p

abbrev first_ten : Option String → Option String
first_ten none = none
first_ten (some s) = some (slice s 0 10)

-- The values that the form starts with once the profile is loaded
unfoldable pub default_values : Me → Values
default_values me = record {
  full_name = or_text (field me.profile (λ p. p.full_name)) (or_text me.name "");
  email = or_text me.email "";
  phone = or_text (field me.profile (λ p. p.phone)) "";
  date_of_birth = or_text (first_ten (field me.profile (λ p. p.date_of_birth))) "";
  emergency_contact_name = or_text (field me.profile (λ p. p.emergency_contact_name)) "";
  emergency_contact_phone = or_text (field me.profile (λ p. p.emergency_contact_phone)) "";
}

unfoldable pub load_profile : Me → Screen → Screen
load_profile me s = record s {
  gender = or_text (field me.profile (λ p. p.gender)) s.gender;
  tshirt_size = or_text (field me.profile (λ p. p.tshirt_size)) s.tshirt_size;
}

unfoldable pub open_categories : List Category → List Category
open_categories cs = keep (λ c. str_eq c.status "OPEN") cs

abbrev is_full : Option ℕ → Bool
is_full none = false
is_full (some n) = n == 0

-- Whether the category that is found cannot be entered
abbrev pub is_unavailable : Times → ℕ → Option ℕ → Option Category → Bool
is_unavailable time_of now places none = true
is_unavailable time_of now places (some c) =
    is_full places || registration_deadline_closed time_of c.registration_deadline now

abbrev name_of : Option Category → String
name_of none = "That entry"
name_of (some c) = if truthy c.name then c.name else "That entry"

-- The effect that gives up a category which can no longer be entered
unfoldable pub check_category : Times → ℕ → Availability → List Category → Screen → Screen
check_category time_of now places cs s =
    let found = find_category s.category (open_categories cs) in
    if truthy s.category && is_unavailable time_of now (places s.category) found
    then record s {
      category = "";
      submit_error =
          String.◌++◌ (name_of found)
            " just filled up while you were entering your details. Choose another distance to continue.";
    }
    else s

-- `caught instanceof ApiError && caught.code === "busy"`
abbrev pub is_busy : Failure → Bool
is_busy (api e) = str_eq e.code "busy"
is_busy _ = false

abbrev is_pending : Option Checkout → Bool
is_pending none = false
is_pending (some c) = str_eq c.status "PENDING"

-- An entry that was made: its payment is opened, or the wallet.
unfoldable pub entered : Entered → Screen → Screen
entered r s =
    let t = record s { retrying = false } in
    if is_pending r.payment
    then record t { payment = r.payment }
    else record t { opened_wallet = true }

unfoldable pub rejected : Failure → Screen → Screen
rejected e s = record s {
  retrying = false;
  submit_error = message_of e "Registration could not be completed.";
}

abbrev pub max_attempts : ℕ
max_attempts = 3

-- The loop over the attempts: `left` of them are left, and the next one is number `attempt`.
unfoldable pub try_register : (ℕ → Result Entered) → ℕ → ℕ → Screen → Screen
try_register service zero attempt s = s
try_register service (suc left) attempt s =
    let t = record s { attempts = s.attempts + 1 } in
    let later =
      try_register service left (attempt + 1)
        (record t { retrying = true; waited = s.waited + attempt * 1200 }) in
    elim (service attempt) [
      | ok r ↦ entered r t
      | err e ↦ if is_busy e && ltb attempt max_attempts then later else rejected e t
    ]

abbrev pub payload : Values → Screen → Payload
payload values s = record {
  event_category_id = s.category;
  values = values;
  gender = s.gender;
  tshirt_size = s.tshirt_size;
}

-- `submit`, for values that the form has found valid
unfoldable pub submit : (ℕ → Result Entered) → Bool → Values → Screen → Screen
submit service has_event values s =
    if not has_event
    then s
    else if not (truthy s.category)
    then record s { submit_error = "Choose an entry category to continue." }
    else try_register service max_attempts 1
        (record s { submit_error = ""; sent = some (payload values s) })

-- An entry of the user
pub record Entry : Type 0 where
  pub event_id : String
  pub status : String

pub record Event : Type 0 where
  pub id : String
  pub status : String
  pub categories : List Category

unfoldable pub is_active_entry : String → Entry → Bool
is_active_entry event_id r =
    str_eq r.event_id event_id && (str_eq r.status "PENDING" || str_eq r.status "CONFIRMED")

unfoldable pub can_register : Event → Bool
can_register e =
    str_eq e.status "REGISTRATION_OPEN" && ltb 0 (length (open_categories e.categories))

pub data View : Type 0 where
  loading sign_in not_ready already_entered closed form : View

-- What the screen shows, by the session, the query of the event, and the entries of the user
unfoldable pub view :
    (session_loading authenticated query_loading query_failed : Bool)
    → Option Event
    → List Entry
    → View
view session_loading authenticated query_loading query_failed event mine =
    if session_loading || query_loading
    then loading
    else if not authenticated
    then sign_in
    else if query_failed
    then not_ready
    else elim event [
      | none ↦ not_ready
      | some e ↦
          if any (is_active_entry e.id) mine
          then already_entered
          else if not (can_register e)
          then closed
          else form
    ]
