-- ===== src/Web/Builder/Steps.antt =====
-- frontend/src/pages/admin/events/new.tsx: what happens on the page, and what holds after it. A page that was
-- left for another is not changed any more; what reaches it then is not modelled.
use unity_runn.Prelude.{
  ℕ, String, Option, none, some, List, [], ◌∷◌, Bool, true, false, not, ◌&&◌, ◌||◌, ◌==◌, truthy,
  is_some, if◌then◌else◌, All, ◌≡◌, refl, arith, inl, inr, Bool-cases,
}
use unity_runn.Exec.{Result, ok, err}
use unity_runn.Web.Builder.{
  Field, CategoryForm, ScheduleForm, Category, Stored, unreadable, outdated, saved, Builder,
  handle_name_change, change_field, change_poster, go_back, go_next, finish,
}
use unity_runn.Web.Builder.Draft.{
  has_text, or_null, resume_draft, resume_stored, clipped, restore_draft, ServerDraft, draft_loaded,
  draft_failed, save_draft,
}
use unity_runn.Web.Builder.Saves.{
  Library, Basics, SavedEvent, prepare_basics, basics_sent, start_basics, end_basics,
  start_category, end_category, end_remove_category, start_schedule_item, end_schedule_item,
  end_remove_schedule_item,
}

pub data Happening (N : Type 0) : Type 0 where
  name_changed : List ℕ → Happening N
  field_changed : Field → String → Happening N
  poster_changed : String → Happening N
  poster_uploading_set : Bool → Happening N
  poster_error_set : Option String → Happening N
  category_form_changed : CategoryForm → Happening N
  schedule_form_changed : ScheduleForm → Happening N
  error_dismissed notice_dismissed back_pressed next_pressed finish_pressed : Happening N
  draft_resumed : Happening N
  draft_answered : ServerDraft → Happening N
  draft_refused : ℕ → Happening N
  basics_submitted category_submitted item_submitted : Happening N
  basics_answered : Basics N → Result SavedEvent → Happening N
  category_answered : Result Category → Happening N
  category_removed : String → Result (Unit {0}) → Happening N
  item_answered : ScheduleForm → Result String → Happening N
  item_removed : String → Result (Unit {0}) → Happening N

-- The draft is saved after every change, unless the page is left.
abbrev pub settle : Builder → Builder
settle s = if is_some s.opened then s else save_draft s

module _ {N : Type 0} (j : Library N) (includes_t : String → Bool)
    (path : Option String → String) where
  abbrev pub handle : Happening N → Builder → Builder
  handle (name_changed name) s = handle_name_change j.lower name s
  handle (field_changed field value) s = change_field field value s
  handle (poster_changed cover_image) s = change_poster cover_image s
  handle (poster_uploading_set b) s = record s { poster_uploading = b }
  handle (poster_error_set e) s = record s { poster_error = e }
  handle (category_form_changed f) s = record s { category_form = f }
  handle (schedule_form_changed f) s = record s { schedule_form = f }
  handle error_dismissed s = record s { error = none }
  handle notice_dismissed s = record s { draft_recovered = false }
  handle back_pressed s = go_back s
  handle next_pressed s = go_next s
  handle finish_pressed s = finish path s
  handle draft_resumed s = resume_draft s
  handle (draft_answered d) s = draft_loaded includes_t d s
  handle (draft_refused status) s = draft_failed status s
  handle basics_submitted s = (start_basics j s).1
  handle category_submitted s = (start_category j s).1
  handle item_submitted s = (start_schedule_item s).1
  handle (basics_answered p r) s = end_basics j p r s
  handle (category_answered r) s = end_category r s
  handle (category_removed id r) s = end_remove_category id r s
  handle (item_answered f r) s = end_schedule_item f r s
  handle (item_removed id r) s = end_remove_schedule_item id r s

  unfoldable pub step : Happening N → Builder → Builder
  step e s = if is_some s.opened then s else settle (handle e s)

  unfoldable pub run : List (Happening N) → Builder → Builder
  run [] s = s
  run (e ∷ es) s = run es (step e s)

-- The second and the third step are those of an event that the service knows.
abbrev pub located : ℕ → Option String → Bool
located step id = step == 1 || ((step == 2 || step == 3) && has_text id)

abbrev pub is_stored_located : Option Stored → Bool
is_stored_located none = true
is_stored_located (some unreadable) = true
is_stored_located (some outdated) = true
is_stored_located (some (saved d)) = located d.step d.event_id

abbrev pub IsSound : Builder → Type 0
IsSound s =
    (located s.step s.event_id ≡ true)
    × (s.cover_image_ref ≡ s.form_data.cover_image)
    × (is_stored_located s.storage ≡ true)

-- The service gives an event that it saves an id.
abbrev pub HasId : {N : Type 0} → Happening N → Type 0
HasId (basics_answered p (ok e)) = truthy e.id ≡ true
HasId _ = Unit

save_draft-IsSound : (s : Builder) → IsSound s → IsSound (save_draft s)
unfolding save_draft
save_draft-IsSound s h = ground arith

located-clipped :
    (step : ℕ) (id : Option String)
    → located step id ≡ true
    → located (clipped step) (or_null id) ≡ true
located-clipped step id h = ground arith

settled-IsSound : (s : Builder) → IsSound s → IsSound (settle s)
settled-IsSound s h = elim (Bool-cases (is_some s.opened)) [
  | inl left ↦ rw left h
  | inr here ↦ rw here (save_draft-IsSound s h)
]

resume_stored-IsSound :
    (o : Option Stored) (s : Builder)
    → is_stored_located o ≡ true
    → IsSound s
    → IsSound (resume_stored o s)
unfolding restore_draft
resume_stored-IsSound none s well h = h
resume_stored-IsSound (some unreadable) s well h = (h.0, h.1, refl)
resume_stored-IsSound (some outdated) s well h = (h.0, h.1, refl)
resume_stored-IsSound (some (saved d)) s well h =
    let place = located-clipped d.step d.event_id well in ground (arith, place)

basics_sent-IsSound :
    {N : Type 0} (j : Library N) (r : Result (Basics N)) (s : Builder)
    → IsSound s
    → IsSound (basics_sent j r s).1
basics_sent-IsSound j (ok p) s h = h
basics_sent-IsSound j (err e) s h = h

start_basics-IsSound :
    {N : Type 0} (j : Library N) (s : Builder) → IsSound s → IsSound (start_basics j s).1
unfolding start_basics
start_basics-IsSound j s h =
    let sent = basics_sent-IsSound j (prepare_basics j s) s h in
    elim (Bool-cases (s.step == 1 && (not s.loading && not s.poster_uploading))) [
      | inl on ↦ rw on sent
      | inr off ↦ rw off h
    ]

handle-IsSound :
    {N : Type 0} (j : Library N) (t : String → Bool) (path : Option String → String)
    (e : Happening N) (s : Builder)
    → HasId e
    → IsSound s
    → IsSound (handle j t path e s)
unfolding handle_name_change change_field change_poster go_back go_next finish resume_draft
    draft_loaded draft_failed end_basics start_category end_category end_remove_category
    start_schedule_item end_schedule_item end_remove_schedule_item
handle-IsSound j t path draft_resumed s ids h = resume_stored-IsSound s.storage s h.2 h
handle-IsSound j t path (basics_answered p (ok e)) s ids h = ground arith
handle-IsSound j t path basics_submitted s ids h = start_basics-IsSound j s h
handle-IsSound j t path e s ids h = ground arith

step-IsSound :
    {N : Type 0} (j : Library N) (t : String → Bool) (path : Option String → String)
    (e : Happening N) (s : Builder)
    → HasId e
    → IsSound s
    → IsSound (step j t path e s)
unfolding step
step-IsSound j t path e s ids h =
    let after = handle j t path e s in
    let kept = handle-IsSound j t path e s ids h in
    elim (Bool-cases (is_some s.opened)) [
      | inl left ↦ rw left h
      | inr here ↦ rw here (settled-IsSound after kept)
    ]

-- From a page of which this holds, and where the service gives an id to each event that it saves: whatever is
-- typed, saved, answered and resumed, the page shows its first step or a step of an event that has an id, the
-- same holds of the draft that the browser keeps, and the poster that would be submitted is the poster that
-- is shown.
pub run-IsSound :
    {N : Type 0} (j : Library N) (includes_t : String → Bool) (path : Option String → String)
    (es : List (Happening N)) (s : Builder)
    → All HasId es
    → IsSound s
    → IsSound (run j includes_t path es s)
unfolding run
run-IsSound j t path [] s ids h = h
run-IsSound j t path (e ∷ es) s (id, ids) h =
    run-IsSound j t path es (step j t path e s) ids (step-IsSound j t path e s id h)
