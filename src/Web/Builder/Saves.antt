-- ===== src/Web/Builder/Saves.antt =====
-- frontend/src/pages/admin/events/new.tsx: what the page sends to the service in its three steps. A handler is
-- split at its await: `start_...` gives the call that is sent, if one is, and `end_...` takes its answer.
use unity_runn.Prelude.{
  ℕ, String, Option, none, some, List, [], ◌∷◌, ◌++◌, Bool, true, false, not, ◌&&◌, ◌||◌, ◌==◌,
  truthy, str_eq, if◌then◌else◌, keep, length,
}
use unity_runn.Exec.{Failure, plain, Result, ok, err}
use unity_runn.Web.Amounts.{Numbers, Currency, parse_money_input, parse_event_coordinates}
use unity_runn.Web.Slug.{generate_slug}
use unity_runn.Web.Builder.{
  Form, initial_category_form, ScheduleForm, initial_schedule_form, Category, Builder, is_empty,
}
use unity_runn.Web.Builder.Draft.{or_null, or_text}
use unity_runn.Mobile.Payment.{message_of}
use Prim.Native.String

abbrev pub failing : Failure → String → Builder → Builder
failing e fallback s = record s { error = some (message_of e fallback); loading = false }

-- The event that a payload is sent to: `updateEvent` is called with it, and `createEvent` without one.
abbrev pub target_of : Builder → Option String
target_of s = or_null s.event_id

-- The payload of the first step
pub record Basics (N : Type 0) : Type 0 where
  pub name : List ℕ
  pub slug : List ℕ
  pub description : String
  pub cover_image : String
  pub event_date : String
  pub start_time : String
  pub location : String
  pub coordinates : Option (N × N)

-- What the service returns of an event, as far as the first step reads it
pub record SavedEvent : Type 0 where
  pub id : String
  pub slug : List ℕ
  pub cover_image : Option String

abbrev pub is_complete : Form → Bool
is_complete f =
    not (is_empty f.name) && (truthy f.event_date && (truthy f.start_time && truthy f.location))

abbrev poster_failure : Bool → Option String → Option Failure
poster_failure uploading poster_error =
    if uploading
    then some (plain "Wait for the event poster to finish uploading before continuing.")
    else elim poster_error [
      | none ↦ none
      | some e ↦
          if truthy e
          then some (plain (String.◌++◌ "Fix the event poster before continuing: " e))
          else none
    ]

pub record Library (N : Type 0) : Type 0 where
  pub numbers : Numbers N
  pub trim : String → String
  pub lower : List ℕ → List ℕ
  pub parse_int : String → N

module _ {N : Type 0} (j : Library N) where
  abbrev basics_of : Form → String → Option (N × N) → Basics N
  basics_of f cover_image coordinates = record {
    name = f.name;
    slug = if is_empty f.slug then generate_slug j.lower f.name else f.slug;
    description = f.description;
    cover_image = j.trim cover_image;
    event_date = f.event_date;
    start_time = f.start_time;
    location = f.location;
    coordinates = coordinates;
  }

  abbrev with_coordinates : Form → String → Result (Option (N × N)) → Result (Basics N)
  with_coordinates f cover_image (ok coordinates) = ok (basics_of f cover_image coordinates)
  with_coordinates f cover_image (err e) = err e

  -- The payload, or the error that is thrown before a call
  unfoldable pub prepare_basics : Builder → Result (Basics N)
  prepare_basics s = elim (poster_failure s.poster_uploading s.poster_error) [
    | some e ↦ err e
    | none ↦
        if not (is_complete s.form_data)
        then err (plain "Fill in every required field to continue.")
        else with_coordinates s.form_data s.cover_image_ref
            (parse_event_coordinates j.numbers j.trim s.form_data.latitude s.form_data.longitude)
  ]

  abbrev pub started : Builder → Builder
  started s = record s { error = none; loading = true }

  -- The payload that is sent, to the event of the page if it has one
  abbrev pub basics_sent : Result (Basics N) → Builder → Option (Basics N) × Builder
  basics_sent (ok p) s = (some p, started s)
  basics_sent (err e) s = (none, failing e "Failed to save event" s)

  -- The button of the form is disabled while a call runs or a poster is uploaded.
  unfoldable pub start_basics : Builder → Option (Basics N) × Builder
  start_basics s =
      if s.step == 1 && (not s.loading && not s.poster_uploading)
      then basics_sent (prepare_basics s) s
      else (none, s)

  abbrev pub attaches : Basics N → SavedEvent → Bool
  attaches p e =
      not (truthy p.cover_image)
      || elim e.cover_image [ none ↦ false | some c ↦ str_eq c p.cover_image ]

  abbrev pub attached : Basics N → SavedEvent → Builder → Builder
  attached p e s =
      let cover_image = or_text e.cover_image p.cover_image in
      record s {
        event_id = some e.id;
        event_slug = some e.slug;
        cover_image_ref = cover_image;
        form_data = record s.form_data { slug = e.slug; cover_image = cover_image };
        step = 2;
        loading = false;
      }

  unfoldable pub end_basics : Basics N → Result SavedEvent → Builder → Builder
  end_basics p (err e) s = failing e "Failed to save event" s
  end_basics p (ok e) s =
      if attaches p e
      then attached p e s
      else failing
          (plain
            "The event was saved, but its poster was not attached. Please try saving once more.")
          "Failed to save event" s

  pub record NewCategory : Type 0 where
    pub name : String
    pub distance : String
    pub price_cents : N
    pub currency : Currency
    pub capacity : N

  unfoldable pub start_category : Builder → Option NewCategory × Builder
  start_category s =
      let f = s.category_form in
      if not (s.step == 2) || s.loading
      then (none, s)
      else if not (truthy f.name) || (not (truthy f.distance) || not (truthy f.capacity))
      then (none, record s { error = some "Category needs a name, distance and capacity." })
      else (
        some record {
          name = f.name;
          distance = f.distance;
          price_cents = parse_money_input j.numbers f.price f.currency;
          currency = f.currency;
          capacity = j.parse_int f.capacity;
        },
        started s,
      )

unfoldable pub end_category : Result Category → Builder → Builder
end_category (ok created) s = record s {
  categories = s.categories ++ (created ∷ []);
  category_form = initial_category_form;
  loading = false;
}
end_category (err e) s = failing e "Failed to add category" s

unfoldable pub end_remove_category : String → Result (Unit {0}) → Builder → Builder
end_remove_category id (ok tt) s = record s {
  categories = keep (λ c. not (str_eq c.id id)) s.categories;
}
end_remove_category id (err e) s = record s {
  error = some (message_of e "Failed to remove category");
}

pub record NewScheduleItem : Type 0 where
  pub item : ScheduleForm
  pub sort_order : ℕ

unfoldable pub start_schedule_item : Builder → Option NewScheduleItem × Builder
start_schedule_item s =
    let f = s.schedule_form in
    if not (s.step == 3) || s.loading
    then (none, s)
    else if not (truthy f.time) || not (truthy f.title)
    then (none, record s { error = some "Each schedule line needs a time and a title." })
    else (
      some record { item = f; sort_order = length s.schedule },
      record s { error = none; loading = true },
    )

-- The row keeps what was sent.
unfoldable pub end_schedule_item : ScheduleForm → Result String → Builder → Builder
end_schedule_item f (ok id) s = record s {
  schedule =
      s.schedule
      ++ (record { id = id; time = f.time; title = f.title; description = f.description } ∷ []);
  schedule_form = initial_schedule_form;
  loading = false;
}
end_schedule_item f (err e) s = failing e "Failed to add schedule item" s

unfoldable pub end_remove_schedule_item : String → Result (Unit {0}) → Builder → Builder
end_remove_schedule_item id (ok tt) s = record s {
  schedule = keep (λ r. not (str_eq r.id id)) s.schedule;
}
end_remove_schedule_item id (err e) s = record s {
  error = some (message_of e "Failed to remove schedule item");
}
