-- ===== src/Web/Api/Calls.antt =====
-- frontend/src/lib/api.ts: the object `api`, by the requests that its methods send. The encoding of
-- bodies and of queries is a parameter.
pub mod Staff
pub mod Queries
pub mod Routes
mod Examples
use Prim.Native.String
use unity_runn.Prelude.{ℕ, String, Option, none, some, List, [], ◌∷◌, Bool, true, false}
use unity_runn.Web.Api.{Method, get, post, patch, delete, Body, RequestOptions}

pub data Value : Type 0 where
  text : String → Value
  number : ℕ → Value
  missing : Value

abbrev pub Fields : Type 0
Fields = List (String × Value)

-- `JSON.stringify` of an object, which leaves out the missing fields, and `URLSearchParams.toString`
pub record Encoding : Type 0 where
  pub stringify : Fields → String
  pub search : List (String × String) → String
  pub decimal : ℕ → String

pub record Request : Type 0 where
  pub path : String
  pub options : RequestOptions

abbrev pub root : String
root = "/api/v1/"

abbrev pub concat : List String → String
concat [] = ""
concat (s ∷ ss) = String.◌++◌ s (concat ss)

abbrev pub route : List String → String
route parts = String.◌++◌ root (concat parts)

abbrev pub options : Method → Option Body → RequestOptions
options m b = record {
  method = some m;
  body = b;
  credentials = none;
  skip_auth_retry = false;
  suppress_auth_redirect = false;
}

abbrev pub quietly : RequestOptions → Bool → RequestOptions
quietly o b = record o { suppress_auth_redirect = b }

abbrev pub getting : List String → Request
getting parts = record { path = route parts; options = record (options get none) { method = none } }

abbrev pub deleting : List String → Request
deleting parts = record { path = route parts; options = options delete none }

-- A POST without a body
abbrev pub asking : List String → Request
asking parts = record { path = route parts; options = options post none }

-- An object counts as true.
abbrev pub object : String → Option Body
object json = some (record { json = json; counts = true })

abbrev pub posting : List String → String → Request
posting parts json = record { path = route parts; options = options post (object json) }

abbrev pub patching : List String → String → Request
patching parts json = record { path = route parts; options = options patch (object json) }

-- The account and its messages; what a caller hands over as a body is its JSON text.
pub data AccountCall : Type 0 where
  get_me : Bool → AccountCall
  update_me update_telegram_preferences : String → AccountCall
  get_telegram_delivery create_telegram_link send_telegram_test : AccountCall
  list_telegram_deliveries disconnect_telegram : AccountCall

unfoldable pub account_call : AccountCall → Request
account_call (get_me allow_unauthenticated) =
    let r = getting ("me/" ∷ []) in record r { options = quietly r.options allow_unauthenticated }
account_call (update_me json) = patching ("me/" ∷ []) json
account_call get_telegram_delivery = getting ("me/telegram" ∷ [])
account_call create_telegram_link = asking ("me/telegram/link" ∷ [])
account_call (update_telegram_preferences json) = patching ("me/telegram/preferences" ∷ []) json
account_call send_telegram_test = asking ("me/telegram/test" ∷ [])
account_call list_telegram_deliveries = getting ("me/telegram/deliveries" ∷ [])
account_call disconnect_telegram = deleting ("me/telegram" ∷ [])

pub data EventCall : Type 0 where
  get_event get_event_by_id delete_event create_event : String → EventCall
  get_category_availability update_event : String → String → EventCall
  duplicate_event : String → (name : String) → (event_date : String) → EventCall

unfoldable pub event_call : Encoding → EventCall → Request
event_call e (get_event slug) = getting ("events/" ∷ slug ∷ [])
event_call e (get_event_by_id id) = getting ("events/by-id/" ∷ id ∷ [])
event_call e (get_category_availability event category) =
    let r = getting ("events/" ∷ event ∷ "/categories/" ∷ category ∷ "/availability" ∷ []) in
    record r { options = quietly r.options true }
event_call e (create_event json) = posting ("events/" ∷ []) json
event_call e (duplicate_event id name event_date) =
    posting ("events/" ∷ id ∷ "/duplicate" ∷ [])
      (e.stringify (("name", text name) ∷ ("event_date", text event_date) ∷ []))
event_call e (update_event id json) = patching ("events/" ∷ id ∷ []) json
event_call e (delete_event id) = deleting ("events/" ∷ id ∷ [])

pub data Decision : Type 0 where
  approve reject : Decision

abbrev pub decision_text : Decision → String
decision_text approve = "APPROVE"
decision_text reject = "REJECT"

pub data RegistrationCall : Type 0 where
  issue_ticket_token get_registration get_registration_payment : String → RegistrationCall
  verify_registration_payment cancel_registration : String → RegistrationCall
  register_for_event submit_registration_payment : String → String → RegistrationCall
  admin_review_payment : String → Decision → RegistrationCall

unfoldable pub registration_call : Encoding → RegistrationCall → Request
registration_call e (issue_ticket_token id) = asking ("registrations/" ∷ id ∷ "/ticket" ∷ [])
registration_call e (register_for_event event json) =
    posting ("events/" ∷ event ∷ "/registrations" ∷ []) json
registration_call e (get_registration id) = getting ("registrations/" ∷ id ∷ [])
registration_call e (get_registration_payment id) =
    getting ("registrations/" ∷ id ∷ "/payment" ∷ [])
registration_call e (verify_registration_payment id) =
    asking ("registrations/" ∷ id ∷ "/payment/verify" ∷ [])
registration_call e (submit_registration_payment id reference) =
    posting ("registrations/" ∷ id ∷ "/payment/submit" ∷ [])
      (e.stringify (("reference", text reference) ∷ []))
registration_call e (admin_review_payment id decision) =
    patching ("admin/registrations/" ∷ id ∷ "/payment" ∷ [])
      (e.stringify (("decision", text (decision_text decision)) ∷ []))
registration_call e (cancel_registration id) = asking ("registrations/" ∷ id ∷ "/cancel" ∷ [])
