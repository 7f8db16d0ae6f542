-- ===== src/Web/CategoriesEditor.antt =====
-- frontend/src/components/admin/EventCategoriesEditor.tsx: the categories of an event, with the times of
-- frontend/src/lib/registrationDeadline.ts. A call is split at its await, and its end takes the categories of the
-- time of the call. Numbers, texts and times are parameters.
pub mod Edits
mod Examples
use Prim.Native.String
use unity_runn.Prelude.{
  ℕ, String, Option, none, some, List, [], ◌∷◌, ◌++◌, Bool, true, false, not, ◌&&◌, ◌||◌, truthy,
  str_eq, keep, map, if◌then◌else◌,
}
use unity_runn.Exec.{Failure, Result, ok, err}
use unity_runn.Mobile.Payment.{message_of}
use unity_runn.Web.Alerts.{Tone, error_tone, success_tone, ToastInput, Alerts, notify}
use unity_runn.Web.Amounts.{Numbers, Currency, usd, khr, parse_money_input}

pub data CategoryStatus : Type 0 where
  open_category closed_category sold_out_category : CategoryStatus

pub record EventCategory (N : Type 0) : Type 0 where
  pub id : String
  pub name : String
  pub distance : String
  pub price_cents : N
  pub currency : Currency
  pub capacity : N
  pub registration_deadline : Option String
  pub status : CategoryStatus

pub record CategoryDraft : Type 0 where
  pub name : String
  pub distance : String
  pub price : String
  pub currency : Currency
  pub capacity : String
  pub registration_deadline : String
  pub status : CategoryStatus

abbrev pub empty_category_draft : CategoryDraft
empty_category_draft = record {
  name = "";
  distance = "";
  price = "0";
  currency = usd;
  capacity = "";
  registration_deadline = "";
  status = open_category;
}

-- `categories` is the property of the component, which `onChange` sets.
pub record CategoriesEditor (N : Type 0) : Type 0 where
  pub categories : List (EventCategory N)
  pub editing_id : Option String
  pub draft : CategoryDraft
  pub create_draft : CategoryDraft
  pub busy_id : Option String
  pub deleting_id : Option String
  pub alerts : Alerts

pub record FieldTools (N : Type 0) : Type 0 where
  pub numbers : Numbers N
  pub trim : String → String
  -- `Number.parseInt(s, 10)`, `String(x)` and `(x / 100).toFixed(2)`
  pub parse_int : String → N
  pub show : N → String
  pub show_hundredths : N → String
  -- the local time of a date, if the text is one, and `new Date(s).toISOString()`
  pub local_time : String → Option String
  pub to_iso : String → Result String

-- The values that are sent to the service; `status` only for a category that is changed
pub record CategoryPayload (N : Type 0) : Type 0 where
  pub name : String
  pub distance : String
  pub price_cents : N
  pub currency : Currency
  pub capacity : N
  pub registration_deadline : Option String
  pub clear_registration_deadline : Bool
  pub status : Option CategoryStatus

abbrev is_asked : Option String → String → Bool
is_asked none id = false
is_asked (some deleting) id = str_eq deleting id

abbrev or_blank : Option String → String
or_blank none = ""
or_blank (some t) = t

abbrev dated_deadline : Result String → Result (Option String)
dated_deadline (ok t) = ok (some t)
dated_deadline (err e) = err e

module _ {N : Type 0} where
  abbrev pub toast : Tone → String → String → CategoriesEditor N → CategoriesEditor N
  toast tone title message s = record s {
    alerts =
        (notify (record { tone = tone; title = some title; message = message; duration = none })
          s.alerts).1;
  }

  abbrev replaced_category : String → EventCategory N → EventCategory N → EventCategory N
  replaced_category id updated category = if str_eq category.id id then updated else category

  unfoldable pub end_save_category :
      (captured : List (EventCategory N))
      → String
      → Result (EventCategory N)
      → CategoriesEditor N
      → CategoriesEditor N
  end_save_category captured id (ok updated) s =
      record (toast success_tone "Category saved"
        (String.◌++◌ updated.name " is updated on the event.")
        (record s {
          categories = map (replaced_category id updated) captured;
          editing_id = none;
        })) { busy_id = none }
  end_save_category captured id (err e) s =
      record (toast error_tone "Category not saved" (message_of e "Could not update this category.")
        s) { busy_id = none }

  unfoldable pub end_add_category :
      (captured : List (EventCategory N))
      → Result (EventCategory N)
      → CategoriesEditor N
      → CategoriesEditor N
  end_add_category captured (ok created) s =
      record (toast success_tone "Category added"
        (String.◌++◌ created.name " is ready to configure.")
        (record s {
          categories = captured ++ (created ∷ []);
          create_draft = empty_category_draft;
        })) { busy_id = none }
  end_add_category captured (err e) s =
      record (toast error_tone "Category not added" (message_of e "Could not add this category.")
        s) { busy_id = none }

  -- The first press asks; the second one sends the call.
  unfoldable pub start_remove_category :
      EventCategory N → CategoriesEditor N → Bool × CategoriesEditor N
  start_remove_category category s =
      if is_asked s.deleting_id category.id
      then (true, record s { busy_id = some category.id })
      else (false, record s { deleting_id = some category.id })

  unfoldable pub end_delete_category :
      (captured : List (EventCategory N))
      → EventCategory N
      → Result (Unit {0})
      → CategoriesEditor N
      → CategoriesEditor N
  end_delete_category captured category (ok tt) s =
      record (toast success_tone "Category removed"
        (String.◌++◌ category.name " was removed from the event.")
        (record s {
          categories = keep (λ (item : EventCategory N). not (str_eq item.id category.id)) captured;
          deleting_id = none;
        })) { busy_id = none }
  end_delete_category captured category (err e) s =
      record (toast error_tone "Category not removed"
        (message_of e "Could not remove this category.") s) { busy_id = none }

module _ {N : Type 0} (j : FieldTools N) where
  unfoldable pub to_local_date_time_input : Option String → String
  to_local_date_time_input none = ""
  to_local_date_time_input (some value) = if truthy value then or_blank (j.local_time value) else ""

  unfoldable pub registration_deadline_payload : String → Result (Option String)
  registration_deadline_payload value =
      if truthy value then dated_deadline (j.to_iso value) else ok none

  abbrev pub price_text : Currency → N → String
  price_text khr price = j.show price
  price_text usd price = j.show_hundredths price

  unfoldable pub draft_from_category : EventCategory N → CategoryDraft
  draft_from_category category = record {
    name = category.name;
    distance = category.distance;
    price = price_text category.currency category.price_cents;
    currency = category.currency;
    capacity = j.show category.capacity;
    registration_deadline = to_local_date_time_input category.registration_deadline;
    status = category.status;
  }

  unfoldable pub validate_category_draft : CategoryDraft → Option String
  validate_category_draft draft =
      let capacity = j.parse_int draft.capacity in
      if not (truthy (j.trim draft.name))
      then some "Add a category name."
      else if not (truthy (j.trim draft.distance))
      then some "Add a race distance."
      else if not (j.numbers.is_finite capacity) || j.numbers.less capacity (j.numbers.natural 1)
      then some "Capacity must be at least one runner."
      else none

  unfoldable pub begin_category_edit : EventCategory N → CategoriesEditor N → CategoriesEditor N
  begin_category_edit category s = record s {
    editing_id = some category.id;
    draft = draft_from_category category;
    deleting_id = none;
  }

  abbrev category_payload : CategoryDraft → (changes : Bool) → Option String → CategoryPayload N
  category_payload draft changes deadline = record {
    name = j.trim draft.name;
    distance = j.trim draft.distance;
    price_cents = parse_money_input j.numbers draft.price draft.currency;
    currency = draft.currency;
    capacity = j.parse_int draft.capacity;
    registration_deadline = deadline;
    clear_registration_deadline = changes && not (truthy draft.registration_deadline);
    status = if changes then some draft.status else none;
  }

  -- A deadline that is no time throws inside the try.
  abbrev pub called_category :
      (title fallback busy : String)
      → CategoryDraft
      → (changes : Bool) → Option String
      → Result (Option String)
      → CategoriesEditor N
      → Option (CategoryPayload N) × CategoriesEditor N
  called_category title fallback busy draft changes (some problem) deadline s =
      (none, toast error_tone title problem s)
  called_category title fallback busy draft changes none (ok deadline) s =
      (some (category_payload draft changes deadline), record s { busy_id = some busy })
  called_category title fallback busy draft changes none (err e) s =
      (none, record (toast error_tone title (message_of e fallback) s) { busy_id = none })

  unfoldable pub start_save_category :
      String → CategoriesEditor N → Option (CategoryPayload N) × CategoriesEditor N
  start_save_category id s =
      called_category "Category not saved" "Could not update this category." id s.draft true
        (validate_category_draft s.draft)
        (registration_deadline_payload s.draft.registration_deadline) s

  unfoldable pub start_add_category :
      CategoriesEditor N → Option (CategoryPayload N) × CategoriesEditor N
  start_add_category s =
      called_category "Category not added" "Could not add this category." "new" s.create_draft false
        (validate_category_draft s.create_draft)
        (registration_deadline_payload s.create_draft.registration_deadline) s
