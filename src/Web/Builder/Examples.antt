-- ===== src/Web/Builder/Examples.antt =====
-- Tests of the event setup on concrete pages.
use unity_runn.Prelude.{ℕ, String, none, [], ◌∷◌, true, ltb, str_eq, if◌then◌else◌, ◌≡◌, refl}
use unity_runn.Exec.{ok}
use unity_runn.Web.Builder.{Builder, initial_form_data, opened_page}
use unity_runn.Web.Builder.Draft.{save_draft, resume_draft, draft_of}
use unity_runn.Web.Builder.Saves.{Library, Basics, SavedEvent}
use unity_runn.Web.Builder.Steps.{
  name_changed, basics_submitted, basics_answered, IsSound, run, run-IsSound,
}
use unity_runn.Web.Builder.Resumed.{resume_draft-save_draft}

-- Numbers without signs and points; 11 stands for each text but "200".
abbrev read : String → ℕ
read t = if str_eq t "200" then 200 else 11

abbrev library : Library ℕ
library = record {
  numbers = record {
    number = read;
    parse_float = read;
    is_finite = λ n. true;
    less = ltb;
    natural = λ n. n;
    negative = λ n. 0;
    times_hundred = λ n. n;
    round = λ n. n;
  };
  trim = λ t. t;
  lower = λ s. s;
  parse_int = read;
}

-- A page on which a race "a" of a date is entered with a poster
abbrev filled : Builder
filled = record (opened_page none) {
  draft_ready = true;
  cover_image_ref = "/poster";
  form_data = record initial_form_data {
    name = 97 ∷ [];
    slug = 97 ∷ [];
    event_date = "2026-12-01";
    cover_image = "/poster";
  };
}

abbrev sent_basics : Basics ℕ
sent_basics = record {
  name = 97 ∷ [];
  slug = 97 ∷ [];
  description = "";
  cover_image = "/poster";
  event_date = "2026-12-01";
  start_time = "06:00";
  location = "Koh Pich, Phnom Penh, Cambodia";
  coordinates = none;
}

-- An event that was saved without the poster
abbrev bare : SavedEvent
bare = record { id = "e1"; slug = 97 ∷ []; cover_image = none }

filled-IsSound : IsSound filled
filled-IsSound = (refl, refl, refl)

run-IsSound_example : IsSound (
    run library
      (λ t. true)
      (λ id. "/admin/events")
      (name_changed (98 ∷ []) ∷ basics_submitted ∷ basics_answered sent_basics (ok bare) ∷ [])
      filled)
run-IsSound_example =
    run-IsSound library (λ t. true) (λ id. "/admin/events")
      (name_changed (98 ∷ []) ∷ basics_submitted ∷ basics_answered sent_basics (ok bare) ∷ [])
      filled (tt, (tt, (refl, tt))) filled-IsSound

resume_draft-save_draft_example :
    (draft_of (resume_draft (opened_page (save_draft filled).storage)) ≡ draft_of filled)
    × ((resume_draft (opened_page (save_draft filled).storage)).cover_image_ref ≡ "/poster")
resume_draft-save_draft_example = resume_draft-save_draft filled filled-IsSound refl refl refl refl
