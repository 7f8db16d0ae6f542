-- ===== src/Web/EventEditor.antt =====
-- frontend/src/pages/admin/events/[id]/edit.tsx: the page that edits an event. A call is split at its await. The
-- numbers, `trim`, the text of a number and the reading of a local time are parameters; times are ASCII.
pub mod Lifecycle
pub mod Statuses
pub mod Details
mod Examples
use Prim.Native.String
use Prim.Native.String.{slice}
use unity_runn.Prelude.{
  ℕ, suc, String, Option, none, some, List, [], ◌∷◌, Bool, true, false, not, ◌&&◌, ◌||◌, truthy,
  str_eq, is_some, if◌then◌else◌,
}
use unity_runn.Exec.{Failure, plain, Result, ok, err}
use unity_runn.Mobile.Payment.{message_of}
use unity_runn.Web.Amounts.{Numbers, parse_event_coordinates}

pub data EventStatus : Type 0 where
  draft published registration_open registration_closed completed cancelled archived : EventStatus

abbrev pub status_transitions : EventStatus → List EventStatus
status_transitions draft = published ∷ cancelled ∷ []
status_transitions published = registration_open ∷ cancelled ∷ []
status_transitions registration_open = registration_closed ∷ cancelled ∷ []
status_transitions registration_closed = completed ∷ cancelled ∷ []
status_transitions completed = archived ∷ []
status_transitions cancelled = archived ∷ []
status_transitions archived = []

pub record EventRecord (N : Type 0) : Type 0 where
  pub id : String
  pub name : String
  pub slug : String
  pub description : Option String
  pub cover_image : Option String
  pub event_date : Option String
  pub start_time : Option String
  pub location : Option String
  pub latitude : Option N
  pub longitude : Option N
  pub registration_open_at : Option String
  pub registration_close_at : Option String
  pub status : EventStatus

pub record EditForm : Type 0 where
  pub name : String
  pub slug : String
  pub description : String
  pub cover_image : String
  pub event_date : String
  pub start_time : String
  pub location : String
  pub latitude : String
  pub longitude : String
  pub registration_open_at : String
  pub registration_close_at : String

-- The lists of the other tabs, which editors of their own change, are left out.
pub record EditPage (N : Type 0) : Type 0 where
  pub event : Option (EventRecord N)
  pub loading : Bool
  pub saving : Bool
  pub poster_uploading : Bool
  pub poster_error : Option String
  pub cover_image_ref : String
  pub status_updating : Bool
  pub error : Option String
  pub success_message : Option String
  pub form_data : EditForm

pub record Browser (N : Type 0) : Type 0 where
  pub numbers : Numbers N
  pub trim : String → String
  -- `String(x)` of a number
  pub show_number : N → String
  -- `new Date(value).toISOString()`, which throws where the time is not valid
  pub to_iso : String → Result String

abbrev pub status_name : EventStatus → String
status_name draft = "DRAFT"
status_name published = "PUBLISHED"
status_name registration_open = "REGISTRATION_OPEN"
status_name registration_closed = "REGISTRATION_CLOSED"
status_name completed = "COMPLETED"
status_name cancelled = "CANCELLED"
status_name archived = "ARCHIVED"

-- `value || ""`
abbrev pub or_empty : Option String → String
or_empty none = ""
or_empty (some s) = s

-- `value ? value.slice(from, to) : fallback`
abbrev pub part_of : (from to : ℕ) → (fallback : String) → Option String → String
part_of from to fallback none = fallback
part_of from to fallback (some s) = if truthy s then slice s from to else fallback

pub record DetailsPayload (N : Type 0) : Type 0 where
  pub name : String
  pub slug : String
  pub description : String
  pub cover_image : String
  pub event_date : String
  pub start_time : String
  pub location : String
  pub coordinates : Option (N × N)
  pub clear_coordinates : Bool
  pub registration_open_at : Option String
  pub registration_close_at : Option String

-- The change that is sent: the event and its next status
abbrev pub StatusCall : Type 0
StatusCall = String × EventStatus

abbrev pub refuses : EventStatus → (confirmed : Bool) → Bool
refuses cancelled confirmed = not confirmed
refuses _ confirmed = false

abbrev poster_problem : Bool → Option String → Option Failure
poster_problem true poster_error =
    some (plain "Wait for the event poster to finish uploading before saving.")
poster_problem false none = none
poster_problem false (some e) =
    if truthy e then some (plain (String.◌++◌ "Fix the event poster before saving: " e)) else none

abbrev timed : Result String → Result (Option String)
timed (ok t) = ok (some t)
timed (err e) = err e

module _ {N : Type 0} where
  unfoldable pub start_load : EditPage N → EditPage N
  start_load s = record s { loading = true }

  -- An error of the lists is ignored.
  abbrev pub end_detail_lists : EditPage N → EditPage N
  end_detail_lists s = record s { loading = false }

  abbrev pub changing :
      EventStatus
      → (confirmed : Bool) → Option (EventRecord N)
      → EditPage N
      → Option StatusCall × EditPage N
  changing next confirmed none s = (none, s)
  changing next confirmed (some event) s =
      if refuses next confirmed
      then (none, s)
      else (some (event.id, next), record s { status_updating = true; error = none })

  -- `confirmed` is the answer to the question that a cancellation asks.
  unfoldable pub start_status :
      EventStatus → (confirmed : Bool) → EditPage N → Option StatusCall × EditPage N
  start_status next confirmed s = changing next confirmed s.event s

  unfoldable pub end_status : EventStatus → Result (EventRecord N) → EditPage N → EditPage N
  end_status next (ok updated) s = record s {
    event = some updated;
    success_message = some (String.◌++◌ "Event status successfully moved to " (status_name next));
    status_updating = false;
  }
  end_status next (err e) s = record s {
    error = some (message_of e "Failed to update event status");
    status_updating = false;
  }

  -- The timer of a message
  abbrev pub end_message : EditPage N → EditPage N
  end_message s = record s { success_message = none }

  abbrev pub unless_poster : Option Failure → Result (DetailsPayload N) → Result (DetailsPayload N)
  unless_poster (some e) r = err e
  unless_poster none r = r

  abbrev pub sent_details :
      String
      → Result (DetailsPayload N)
      → EditPage N
      → Option (String × DetailsPayload N) × EditPage N
  sent_details id (ok payload) s = (some (id, payload), record s { saving = true; error = none })
  sent_details id (err e) s = (
    none,
    record s { error = some (message_of e "Failed to save event details"); saving = false },
  )

  abbrev pub is_attached : DetailsPayload N → EventRecord N → Bool
  is_attached payload updated =
      not (truthy payload.cover_image) || str_eq (or_empty updated.cover_image) payload.cover_image

  abbrev pub updated_page : EventRecord N → EditPage N → EditPage N
  updated_page updated s = record s {
    cover_image_ref = or_empty updated.cover_image;
    event = some updated;
    form_data = record s.form_data { cover_image = or_empty updated.cover_image };
    success_message = some "Event details updated successfully";
    saving = false;
  }

  unfoldable pub end_details : DetailsPayload N → Result (EventRecord N) → EditPage N → EditPage N
  end_details payload (ok updated) s =
      if is_attached payload updated then updated_page updated s else record s {
        error =
            some
              "The event details were saved, but its poster was not attached. Please save again.";
        saving = false;
      }
  end_details payload (err e) s = record s {
    error = some (message_of e "Failed to save event details");
    saving = false;
  }

module _ {N : Type 0} (j : Browser N) where
  abbrev shown_number : Option N → String
  shown_number none = ""
  shown_number (some x) = j.show_number x

  unfoldable pub form_of : EventRecord N → EditForm
  form_of found = record {
    name = found.name;
    slug = found.slug;
    description = or_empty found.description;
    cover_image = or_empty found.cover_image;
    event_date = part_of 0 10 "" found.event_date;
    start_time = part_of 11 16 "06:00" found.start_time;
    location = or_empty found.location;
    latitude = shown_number found.latitude;
    longitude = shown_number found.longitude;
    registration_open_at = part_of 0 16 "" found.registration_open_at;
    registration_close_at = part_of 0 16 "" found.registration_close_at;
  }

  -- The event that was found; the page stays loading until the lists that belong to it are answered.
  unfoldable pub end_event : Result (EventRecord N) → EditPage N → EditPage N
  end_event (ok found) s = record s {
    event = some found;
    cover_image_ref = or_empty found.cover_image;
    form_data = form_of found;
  }
  end_event (err e) s = record s {
    error = some (message_of e "Failed to load event");
    loading = false;
  }

  -- A time that is left empty is not sent.
  unfoldable pub sent_time : String → Result (Option String)
  sent_time value = if truthy value then timed (j.to_iso value) else ok none

  abbrev details_payload_of :
      EditForm
      → (cover_image : String) → Option (N × N)
      → (open_at close_at : Option String) → DetailsPayload N
  details_payload_of f cover_image coordinates open_at close_at = record {
    name = f.name;
    slug = f.slug;
    description = f.description;
    cover_image = j.trim cover_image;
    event_date = f.event_date;
    start_time = f.start_time;
    location = f.location;
    coordinates = coordinates;
    clear_coordinates = not (is_some coordinates);
    registration_open_at = open_at;
    registration_close_at = close_at;
  }

  abbrev pub with_times :
      EditForm
      → (cover_image : String) → Result (Option (N × N))
      → (open_at close_at : Result (Option String)) → Result (DetailsPayload N)
  with_times f cover_image (err e) open_at close_at = err e
  with_times f cover_image (ok coordinates) (err e) close_at = err e
  with_times f cover_image (ok coordinates) (ok open_at) (err e) = err e
  with_times f cover_image (ok coordinates) (ok open_at) (ok close_at) =
      ok (details_payload_of f cover_image coordinates open_at close_at)

  -- The payload, or the error that is thrown before the call
  unfoldable pub prepare_details : EditPage N → Result (DetailsPayload N)
  prepare_details s = unless_poster (poster_problem s.poster_uploading s.poster_error) (
      with_times s.form_data s.cover_image_ref
        (parse_event_coordinates j.numbers j.trim s.form_data.latitude s.form_data.longitude)
        (sent_time s.form_data.registration_open_at) (sent_time s.form_data.registration_close_at))

  abbrev pub saving_event :
      Option (EventRecord N) → EditPage N → Option (String × DetailsPayload N) × EditPage N
  saving_event none s = (none, s)
  saving_event (some event) s = sent_details event.id (prepare_details s) s

  -- The event that is changed, and its payload, if a call is made
  unfoldable pub start_details : EditPage N → Option (String × DetailsPayload N) × EditPage N
  start_details s = saving_event s.event s
