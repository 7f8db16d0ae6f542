-- ===== src/Web/Builder.antt =====
-- frontend/src/pages/admin/events/new.tsx: the three steps in which an event is set up, with the draft that the
-- browser keeps. The times at which a draft is saved are left out. JavaScript's numbers, `trim` and
-- `toLowerCase` are parameters.
pub mod Draft
pub mod Saves
pub mod Steps
pub mod Resumed
pub mod Attempts
mod Examples
use unity_runn.Prelude.{
  ℕ, String, Option, none, some, List, [], ◌∷◌, Bool, true, false, not, ◌&&◌, ◌||◌, ◌==◌,
  if◌then◌else◌,
}
use unity_runn.Web.Amounts.{Currency, usd}
use unity_runn.Web.Slug.{generate_slug}

-- The name and the slug are lists of UTF-16 code units.
pub record Form : Type 0 where
  pub name : List ℕ
  pub slug : List ℕ
  pub description : String
  pub cover_image : String
  pub event_date : String
  pub start_time : String
  pub location : String
  pub latitude : String
  pub longitude : String

abbrev pub initial_form_data : Form
initial_form_data = record {
  name = [];
  slug = [];
  description = "";
  cover_image = "";
  event_date = "";
  start_time = "06:00";
  location = "Koh Pich, Phnom Penh, Cambodia";
  latitude = "";
  longitude = "";
}

pub record CategoryForm : Type 0 where
  pub name : String
  pub distance : String
  pub price : String
  pub currency : Currency
  pub capacity : String

abbrev pub initial_category_form : CategoryForm
initial_category_form = record {
  name = "";
  distance = "";
  price = "";
  currency = usd;
  capacity = "";
}

pub record ScheduleForm : Type 0 where
  pub time : String
  pub title : String
  pub description : String

abbrev pub initial_schedule_form : ScheduleForm
initial_schedule_form = record { time = ""; title = ""; description = "" }

-- A category as the service returns it, as far as the page reads it
pub record Category : Type 0 where
  pub id : String
  pub name : String

pub record ScheduleRow : Type 0 where
  pub id : String
  pub time : String
  pub title : String
  pub description : String

pub record SavedEventDraft : Type 0 where
  pub step : ℕ
  pub event_id : Option String
  pub event_slug : Option (List ℕ)
  pub form_data : Form
  pub category_form : CategoryForm
  pub schedule_form : ScheduleForm
  pub categories : List Category
  pub schedule : List ScheduleRow

-- What the browser keeps under the draft's key: a text that is no JSON, another object than a draft of
-- version 1, or a draft with all of its fields.
pub data Stored : Type 0 where
  unreadable : Stored
  outdated : Stored
  saved : SavedEventDraft → Stored

-- The state of the page, the browser's storage, and the path that was opened last
pub record Builder : Type 0 where
  pub step : ℕ
  pub event_id : Option String
  pub event_slug : Option (List ℕ)
  pub loading : Bool
  pub error : Option String
  pub draft_ready : Bool
  pub draft_recovered : Bool
  pub poster_uploading : Bool
  pub poster_error : Option String
  pub cover_image_ref : String
  pub form_data : Form
  pub categories : List Category
  pub category_form : CategoryForm
  pub schedule : List ScheduleRow
  pub schedule_form : ScheduleForm
  pub storage : Option Stored
  pub opened : Option String

abbrev pub opened_page : Option Stored → Builder
opened_page storage = record {
  step = 1;
  event_id = none;
  event_slug = none;
  loading = false;
  error = none;
  draft_ready = false;
  draft_recovered = false;
  poster_uploading = false;
  poster_error = none;
  cover_image_ref = "";
  form_data = initial_form_data;
  categories = [];
  category_form = initial_category_form;
  schedule = [];
  schedule_form = initial_schedule_form;
  storage = storage;
  opened = none;
}

-- `a === b` on texts
unfoldable pub same : List ℕ → List ℕ → Bool
same [] [] = true
same [] (d ∷ t) = false
same (c ∷ s) [] = false
same (c ∷ s) (d ∷ t) = c == d && same s t

abbrev pub is_empty {ℓ} : {A : Type ℓ} → List A → Bool
is_empty [] = true
is_empty (x ∷ xs) = false

-- The slug follows the name until it is another than the name's.
unfoldable pub handle_name_change : (List ℕ → List ℕ) → List ℕ → Builder → Builder
handle_name_change lower name s =
    let prev = s.form_data in
    let follows = is_empty prev.slug || same prev.slug (generate_slug lower prev.name) in
    record s {
      form_data = record prev {
        name = name;
        slug = if follows then generate_slug lower name else prev.slug;
      };
    }

-- The other fields of the first step but the poster
pub data Field : Type 0 where
  description event_date start_time location latitude longitude : Field

abbrev with_field : Field → String → Form → Form
with_field description value f = record f { description = value }
with_field event_date value f = record f { event_date = value }
with_field start_time value f = record f { start_time = value }
with_field location value f = record f { location = value }
with_field latitude value f = record f { latitude = value }
with_field longitude value f = record f { longitude = value }

unfoldable pub change_field : Field → String → Builder → Builder
change_field field value s = record s { form_data = with_field field value s.form_data }

unfoldable pub change_poster : String → Builder → Builder
change_poster cover_image s = record s {
  cover_image_ref = cover_image;
  form_data = record s.form_data { cover_image = cover_image };
}

-- The buttons below the second and the third step
unfoldable pub go_back : Builder → Builder
go_back s =
    if s.step == 2 && not s.loading
    then record s { step = 1 }
    else if s.step == 3
    then record s { step = 2 }
    else s

unfoldable pub go_next : Builder → Builder
go_next s =
    if s.step == 2 && (not (is_empty s.categories) && not s.loading)
    then record s { step = 3 }
    else s

unfoldable pub finish : (path : Option String → String) → Builder → Builder
finish path s =
    if s.step == 3 then record s { storage = none; opened = some (path s.event_id) } else s
