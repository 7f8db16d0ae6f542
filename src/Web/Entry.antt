-- ===== src/Web/Entry.antt =====
-- frontend/src/pages/events/[slug]/register.tsx: entering an event on the web site. The fields of the form are
-- lists of UTF-16 code units; scrolling to an error is left out.
pub mod Ends
mod Examples
use unity_runn.Prelude.{
  ℕ, suc, String, Option, none, some, List, [], ◌∷◌, Bool, true, false, not, ◌&&◌, ◌||◌, ◌==◌,
  truthy, str_eq, any, if◌then◌else◌,
}
use unity_runn.Exec.{Failure, Result, ok, err}
use unity_runn.Mobile.Payment.{message_of, code_of}
use unity_runn.Mobile.Entries.{Category, Times, registration_deadline_closed}
use unity_runn.Web.Slug.{is_space, strip}

abbrev pub Text : Type 0
Text = List ℕ

pub record FormData : Type 0 where
  pub full_name : Text
  pub email : Text
  pub phone : Text
  pub gender : Text
  pub date_of_birth : Text
  pub emergency_contact_name : Text
  pub emergency_contact_phone : Text
  pub tshirt_size : Text

-- What the service knows of the user; a field that is missing is empty, which counts the same.
pub record Me : Type 0 where
  pub name : Text
  pub email : Text
  pub profile : FormData

pub record Checkout : Type 0 where
  pub status : String

pub record Page : Type 0 where
  pub form_data : FormData
  pub selected_category : String
  pub registering : Bool
  pub reg_error : Option String
  pub payment : Option Checkout
  pub opened : Option String
  pub refreshes : ℕ

-- `a || b`
abbrev pub or_text : Text → Text → Text
or_text [] d = d
or_text (c ∷ s) d = c ∷ s

unfoldable pub prefill : (first_ten : Text → Text) → Me → FormData → FormData
prefill first_ten me current =
    let p = me.profile in
    record {
      full_name = or_text current.full_name (or_text p.full_name me.name);
      email = or_text current.email me.email;
      phone = or_text current.phone p.phone;
      gender = or_text p.gender current.gender;
      date_of_birth = or_text current.date_of_birth (first_ten p.date_of_birth);
      emergency_contact_name = or_text current.emergency_contact_name p.emergency_contact_name;
      emergency_contact_phone = or_text current.emergency_contact_phone p.emergency_contact_phone;
      tshirt_size = or_text p.tshirt_size current.tshirt_size;
    }

unfoldable pub preselect : Times → ℕ → List Category → (preselected : String) → Page → Page
preselect time_of now categories preselected s =
    let offered =
      any
        (λ c.
          str_eq c.id preselected
          && (str_eq c.status "OPEN"
              && not (registration_deadline_closed time_of c.registration_deadline now)))
        categories in
    if truthy preselected && offered then record s { selected_category = preselected } else s

-- `[^\s@]`
abbrev pub is_plain : ℕ → Bool
is_plain c = not (is_space c) && not (c == 64)

abbrev pub all_plain : Text → Bool
all_plain [] = true
all_plain (c ∷ s) = is_plain c && all_plain s

-- `/^[^\s@]*\.[^\s@]+$/`
unfoldable pub has_dot : Text → Bool
has_dot [] = false
has_dot (c ∷ []) = false
has_dot (c ∷ d ∷ s) = (c == 46 && all_plain (d ∷ s)) || (is_plain c && has_dot (d ∷ s))

abbrev pub is_domain : Text → Bool
is_domain [] = false
is_domain (c ∷ s) = is_plain c && has_dot s

-- `/^[^\s@]+@[^\s@]+\.[^\s@]+$/`; `started` tells whether a character stands before.
unfoldable pub is_email : (started : Bool) → Text → Bool
is_email started [] = false
is_email started (c ∷ s) =
    let rest = is_email true s in if c == 64 then started && is_domain s else is_plain c && rest

unfoldable pub is_blank : Text → Bool
is_blank s = elim (strip is_space s) [ [] ↦ true | c ∷ t ↦ false ]

-- The required fields that are blank, in the order of the form, by what is asked of them
unfoldable pub validate_form : FormData → Option String
validate_form f =
    if is_blank f.full_name
    then some "Add your full name to continue."
    else if is_blank f.email
    then some "Add your email address to continue."
    else if is_blank f.phone
    then some "Add your phone number to continue."
    else if is_blank f.date_of_birth
    then some "Add your date of birth to continue."
    else if is_blank f.emergency_contact_name
    then some "Add an emergency contact name to continue."
    else if is_blank f.emergency_contact_phone
    then some "Add an emergency contact phone number to continue."
    else if not (is_email false f.email)
    then some "Enter a valid email address to continue."
    else none

pub record Payload : Type 0 where
  pub event_category_id : String
  pub form_data : FormData

abbrev pub fail_with : String → Page → Page
fail_with message s = record s { reg_error = some message }

abbrev pub checked_start : Option String → Page → Option Payload × Page
checked_start (some message) s = (none, fail_with message s)
checked_start none s = (
  some record { event_category_id = s.selected_category; form_data = s.form_data },
  record s { reg_error = none; registering = true },
)

-- The handler up to its await, for an event that is loaded
unfoldable pub start_register : Page → Option Payload × Page
start_register s =
    if not (truthy s.selected_category)
    then (none, fail_with "Choose an entry category to continue." s)
    else checked_start (validate_form s.form_data) s

abbrev pub is_pending : Option Checkout → Bool
is_pending none = false
is_pending (some c) = str_eq c.status "PENDING"

abbrev pub has_code : String → Option String → Bool
has_code code none = false
has_code code (some c) = str_eq c code

unfoldable pub end_register : Result (Option Checkout) → Page → Page
end_register (ok payment) s =
    let t = record s { registering = false } in
    if is_pending payment
    then record t { payment = payment }
    else record t { opened = some "/dashboard?registration=confirmed" }
end_register (err e) s =
    let t =
      fail_with (message_of e "Registration could not be completed.")
        (record s { registering = false }) in
    if has_code "capacity_full" (code_of e) then record t { refreshes = suc s.refreshes } else t

abbrev pub answered : (Payload → Result (Option Checkout)) → Option Payload × Page → Page
answered service (none, s) = s
answered service (some p, s) = end_register (service p) s

-- The whole handler
unfoldable pub handle_register : (Payload → Result (Option Checkout)) → Page → Page
handle_register service s = answered service (start_register s)
