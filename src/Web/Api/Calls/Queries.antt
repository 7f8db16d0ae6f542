-- ===== src/Web/Api/Calls/Queries.antt =====
-- frontend/src/lib/api.ts: the lists, by their filters and by what is read from the answers.
use Prim.Native.String
use unity_runn.Prelude.{
  ℕ, String, ◌≡◌, arith, Option, none, some, List, [], ◌∷◌, ◌++◌, ◌==◌, truthy, or_else, length,
  str_eq, if◌then◌else◌,
}
use unity_runn.Web.Api.Calls.{Encoding, Request, getting}

-- `if (value) searchParams.set(name, value)`
abbrev pub text_param : String → Option String → List (String × String)
text_param name none = []
text_param name (some value) = if truthy value then (name, value) ∷ [] else []

abbrev pub number_param : (ℕ → String) → String → Option ℕ → List (String × String)
number_param decimal name none = []
number_param decimal name (some n) = if n == 0 then [] else (name, decimal n) ∷ []

abbrev pub join : List String → String
join [] = ""
join (s ∷ []) = s
join (s ∷ t ∷ ss) = String.◌++◌ s (String.◌++◌ "," (join (t ∷ ss)))

abbrev statuses_param : Option (List String) → List (String × String)
statuses_param none = []
statuses_param (some []) = []
statuses_param (some (s ∷ ss)) = ("statuses", join (s ∷ ss)) ∷ []

-- `query ? `?${query}` : ""`
abbrev pub question : String → String
question query = if truthy query then String.◌++◌ "?" query else ""

pub record EventFilter : Type 0 where
  pub statuses : Option (List String)
  pub limit : Option ℕ
  pub offset : Option ℕ

pub record RegistrationFilter : Type 0 where
  pub event_id : Option String
  pub status : Option String
  pub search : Option String
  pub limit : Option ℕ
  pub offset : Option ℕ

pub record LogFilter : Type 0 where
  pub entity_type : Option String
  pub limit : Option ℕ
  pub offset : Option ℕ

pub record UserFilter : Type 0 where
  pub role : Option String
  pub limit : Option ℕ
  pub offset : Option ℕ

-- Every entity is none.
abbrev entity : Option String → Option String
entity none = none
entity (some t) = if str_eq t "ALL" then none else some t

module _ (e : Encoding) where
  unfoldable pub event_params : EventFilter → List (String × String)
  event_params f =
      statuses_param f.statuses
      ++ (number_param e.decimal "limit" f.limit ++ number_param e.decimal "offset" f.offset)

  unfoldable pub registration_params : RegistrationFilter → List (String × String)
  registration_params f =
      text_param "event_id" f.event_id
      ++ (text_param "status" f.status
          ++ (text_param "search" f.search
              ++ (number_param e.decimal "limit" f.limit
                  ++ number_param e.decimal "offset" f.offset)))

  unfoldable pub log_params : LogFilter → List (String × String)
  log_params f =
      text_param "entity_type" (entity f.entity_type)
      ++ (number_param e.decimal "limit" f.limit ++ number_param e.decimal "offset" f.offset)

  unfoldable pub user_params : UserFilter → List (String × String)
  user_params f =
      text_param "role" f.role
      ++ (number_param e.decimal "limit" f.limit ++ number_param e.decimal "offset" f.offset)

  unfoldable pub list_events : EventFilter → Request
  list_events f = getting ("events/" ∷ question (e.search (event_params f)) ∷ [])

  unfoldable pub admin_list_registrations : RegistrationFilter → Request
  admin_list_registrations f =
      getting ("admin/registrations" ∷ question (e.search (registration_params f)) ∷ [])

  unfoldable pub admin_list_audit_logs : LogFilter → Request
  admin_list_audit_logs f = getting ("admin/audit-logs?" ∷ e.search (log_params f) ∷ [])

  unfoldable pub admin_list_users : UserFilter → Request
  admin_list_users f = getting ("admin/users" ∷ question (e.search (user_params f)) ∷ [])

-- What `URLSearchParams.get` finds under a name
abbrev pub lookup : String → List (String × String) → Option String
lookup name [] = none
lookup name ((key, value) ∷ rest) = if str_eq key name then some value else lookup name rest

-- A filter that counts as set: a text that is not empty, and a number that is not 0.
abbrev pub set_text : Option String → Option String
set_text none = none
set_text (some s) = if truthy s then some s else none

abbrev pub set_number : (ℕ → String) → Option ℕ → Option String
set_number decimal none = none
set_number decimal (some n) = if n == 0 then none else some (decimal n)

-- The query of the list of registrations holds each filter that is set, under its own name, and no other.
pub registration_params-lookup :
    (e : Encoding) (f : RegistrationFilter)
    → let q = registration_params e f in
      (lookup "event_id" q ≡ set_text f.event_id)
      × (lookup "status" q ≡ set_text f.status)
      × (lookup "search" q ≡ set_text f.search)
      × (lookup "limit" q ≡ set_number e.decimal f.limit)
      × (lookup "offset" q ≡ set_number e.decimal f.offset)
unfolding registration_params
registration_params-lookup e f = ground arith

-- The answer of a list: an array, an object with optional fields, or no object.
pub data ListAnswer (A : Type 0) : Type 0 where
  array : List A → ListAnswer A
  object : Option (List A) → Option ℕ → ListAnswer A
  nothing : ListAnswer A

pub record ListPage (A : Type 0) : Type 0 where
  pub items : List A
  pub total : ℕ

unfoldable pub list_page : {A : Type 0} → ListAnswer A → ListPage A
list_page (array xs) = record { items = xs; total = length xs }
list_page (object xs n) = record { items = or_else xs []; total = or_else n 0 }
list_page nothing = record { items = []; total = 0 }
