-- ===== src/Web/Builder/Draft.antt =====
-- frontend/src/pages/admin/events/new.tsx: the draft of an event that the browser keeps. `resume_draft` is the
-- effect up to its first await, `draft_loaded` and `draft_failed` what follows the answers of the service, and
-- `draft_done` the end of the effect. Dates and times are ASCII texts, whose characters `slice` counts.
use Prim.Native.String.{slice}
use unity_runn.Prelude.{
  ℕ, String, Option, none, some, List, [], Bool, true, false, not, ◌&&◌, ◌||◌, ltb, ◌==◌, truthy,
  str_eq, is_some, if◌then◌else◌, map,
}
use unity_runn.Web.Builder.{
  Form, initial_form_data, Category, SavedEventDraft, Stored, unreadable, outdated, saved, Builder,
  is_empty,
}

abbrev pub has_text : Option String → Bool
has_text none = false
has_text (some t) = truthy t

-- `id || null`
abbrev pub or_null : Option String → Option String
or_null id = if has_text id then id else none

abbrev pub or_null_codes : Option (List ℕ) → Option (List ℕ)
or_null_codes none = none
or_null_codes (some s) = if is_empty s then none else some s

abbrev pub is_meaningful : SavedEventDraft → Bool
is_meaningful d =
    let form = d.form_data in
    has_text d.event_id
    || (not (is_empty form.name)
        || (truthy form.event_date
            || (truthy form.description
                || (truthy form.cover_image
                    || (not (str_eq form.location initial_form_data.location)
                        || (truthy d.category_form.name
                            || (truthy d.schedule_form.title
                                || (not (is_empty d.categories) || not (is_empty d.schedule)))))))))

-- `Math.max(1, Math.min(3, step || 1))`
abbrev pub clipped : ℕ → ℕ
clipped step = if ltb step 1 then 1 else if ltb 3 step then 3 else step

unfoldable pub restore_draft : SavedEventDraft → Builder → Builder
restore_draft d s = record s {
  cover_image_ref = d.form_data.cover_image;
  form_data = d.form_data;
  category_form = d.category_form;
  schedule_form = d.schedule_form;
  categories = d.categories;
  schedule = d.schedule;
  event_id = or_null d.event_id;
  event_slug = or_null_codes d.event_slug;
  step = clipped d.step;
  draft_recovered = true;
}

abbrev pub draft_done : Builder → Builder
draft_done s = record s { draft_ready = true }

-- Whether the service is asked for the draft that is restored
abbrev pub asks_service : SavedEventDraft → Bool
asks_service d = has_text d.event_id && is_some (or_null_codes d.event_slug)

abbrev pub resume_stored : Option Stored → Builder → Builder
resume_stored none s = draft_done s
resume_stored (some unreadable) s = draft_done (record s { storage = none })
resume_stored (some outdated) s = draft_done (record s { storage = none })
resume_stored (some (saved d)) s =
    if not (is_meaningful d)
    then draft_done s
    else if asks_service d
    then restore_draft d s
    else draft_done (restore_draft d s)

unfoldable pub resume_draft : Builder → Builder
resume_draft s = resume_stored s.storage s

-- What the service returns of an item and of an event; the coordinates are given by their texts.
pub record ServerItem : Type 0 where
  pub id : String
  pub time : String
  pub title : String
  pub description : String

pub record ServerDraft : Type 0 where
  pub name : List ℕ
  pub slug : List ℕ
  pub description : Option String
  pub cover_image : Option String
  pub event_date : String
  pub start_time : Option String
  pub location : Option String
  pub latitude : Option String
  pub longitude : Option String
  pub categories : List Category
  pub schedule : List ServerItem

-- `a || b`
abbrev pub or_text : Option String → String → String
or_text none d = d
or_text (some t) d = if truthy t then t else d

abbrev pub input_time : (includes_t : String → Bool) → String → String
input_time includes_t t = if includes_t t then slice t 11 16 else slice t 0 5

unfoldable pub to_input_time : (includes_t : String → Bool) → Option String → String
to_input_time includes_t none = ""
to_input_time includes_t (some t) = if truthy t then input_time includes_t t else ""

abbrev server_form : (String → Bool) → ServerDraft → Form
server_form includes_t d = record {
  name = d.name;
  slug = d.slug;
  description = or_text d.description "";
  cover_image = or_text d.cover_image "";
  event_date = slice d.event_date 0 10;
  start_time = or_text (some (to_input_time includes_t d.start_time)) "06:00";
  location = or_text d.location initial_form_data.location;
  latitude = elim d.latitude [ none ↦ "" | some t ↦ t ];
  longitude = elim d.longitude [ none ↦ "" | some t ↦ t ];
}

unfoldable pub draft_loaded : (String → Bool) → ServerDraft → Builder → Builder
draft_loaded includes_t d s = draft_done record s {
  cover_image_ref = or_text d.cover_image "";
  form_data = server_form includes_t d;
  categories = d.categories;
  schedule =
      map
        (λ (item : ServerItem). record {
          id = item.id;
          time = to_input_time includes_t (some item.time);
          title = item.title;
          description = item.description;
        })
        d.schedule;
}

unfoldable pub draft_failed : (status : ℕ) → Builder → Builder
draft_failed status s = draft_done (
    if status == 404
    then record s {
      event_id = none;
      event_slug = none;
      step = 1;
      categories = [];
      schedule = [];
      error =
          some
            "The saved server draft no longer exists. Your basic information was recovered so you can create it again.";
    }
    else s)

abbrev pub draft_of : Builder → SavedEventDraft
draft_of s = record {
  step = s.step;
  event_id = s.event_id;
  event_slug = s.event_slug;
  form_data = s.form_data;
  category_form = s.category_form;
  schedule_form = s.schedule_form;
  categories = s.categories;
  schedule = s.schedule;
}

-- The effect that saves the draft once the saved one was read
unfoldable pub save_draft : Builder → Builder
save_draft s = if s.draft_ready then record s { storage = some (saved (draft_of s)) } else s
