-- ===== src/Web/Builder/Attempts.antt =====
-- frontend/src/pages/admin/events/new.tsx: the outcomes of a submission of the first step.
use unity_runn.Prelude.{
  ℕ, String, Option, none, some, List, [], ◌∷◌, Bool, true, false, not, ◌&&◌, ◌||◌, ◌==◌, ◌≡◌, refl,
  ap, ◌∙◌, arith, inl, inr, ◌⊎◌, Bool-cases,
}
use unity_runn.Exec.{plain, Result, ok, err}
use unity_runn.Web.Slug.{generate_slug}
use unity_runn.Web.Builder.{Builder, same, is_empty, handle_name_change}
use unity_runn.Web.Builder.Saves.{
  Library, Basics, SavedEvent, failing, prepare_basics, started, basics_sent, start_basics,
  attaches, end_basics,
}

module _ {N : Type 0} (j : Library N) where
  abbrev can_submit : Builder → Bool
  can_submit s = s.step == 1 && (not s.loading && not s.poster_uploading)

  abbrev answered : (Basics N → Result SavedEvent) → Option (Basics N) × Builder → Builder
  answered service (none, s) = s
  answered service (some p, s) = end_basics j p (service p) s

  -- The whole handler, for a service that answers at once
  unfoldable pub submit_basics : (Basics N → Result SavedEvent) → Builder → Builder
  submit_basics service s = answered service (start_basics j s)

  -- What is left where a submission fails: everything but the error
  abbrev Kept : Builder → Builder → Type 0
  Kept s t =
      (t.step ≡ s.step)
      × (t.event_id ≡ s.event_id)
      × (t.form_data ≡ s.form_data)
      × (t.cover_image_ref ≡ s.cover_image_ref)
      × ((m : String) × (t.error ≡ some m))

  abbrev Saved : Builder → Type 0
  Saved t =
      (t.step ≡ 2)
      × ((e : SavedEvent) × (t.event_id ≡ some e.id) × (t.form_data.slug ≡ e.slug))
      × (t.error ≡ none)

  end_basics-ends :
      (p : Basics N) (r : Result SavedEvent) (s : Builder)
      → let t = end_basics j p r (started j s) in (t.loading ≡ false) × (Saved t ⊎ Kept s t)
  unfolding end_basics
  end_basics-ends p (err e) s = (refl, inr (refl, refl, refl, refl, (_, refl)))
  end_basics-ends p (ok e) s = elim (Bool-cases (attaches j p e)) [
    | inl attaching ↦ rw attaching (refl, inl (refl, (e, refl, refl), refl))
    | inr detached ↦ rw detached (refl, inr (refl, refl, refl, refl, (_, refl)))
  ]

  sent-ends :
      (service : Basics N → Result SavedEvent) (r : Result (Basics N)) (s : Builder)
      → let t = answered service (basics_sent j r s) in (t.loading ≡ false) × (Saved t ⊎ Kept s t)
  sent-ends service (ok p) s = end_basics-ends p (service p) s
  sent-ends service (err e) s = (refl, inr (refl, refl, refl, refl, (_, refl)))

  -- A submission of the first step while no call runs and no poster is uploaded, whatever is typed and
  -- whatever the service answers, ends with no call running, and either in the second step with the event
  -- that was saved, its slug and no error, or with an error, in the same step, with the same event and all
  -- that was typed.
  pub submit_basics-ends :
      (service : Basics N → Result SavedEvent) (s : Builder)
      → can_submit s ≡ true
      → let t = submit_basics service s in (t.loading ≡ false) × (Saved t ⊎ Kept s t)
  unfolding submit_basics start_basics
  submit_basics-ends service s on = rw on (sent-ends service (prepare_basics j s) s)

  abbrev unattached : Builder → Builder
  unattached s =
      failing
        (plain "The event was saved, but its poster was not attached. Please try saving once more.")
        "Failed to save event" s

same_refl : (s : List ℕ) → same s s ≡ true
unfolding same
same_refl [] = refl
same_refl (c ∷ s) = ground (arith, same_refl s)

abbrev pub follows : (List ℕ → List ℕ) → Builder → Bool
follows lower s =
    is_empty s.form_data.slug || same s.form_data.slug (generate_slug lower s.form_data.name)

unfoldable pub change_names : (List ℕ → List ℕ) → List (List ℕ) → Builder → Builder
change_names lower [] s = s
change_names lower (name ∷ names) s = change_names lower names (handle_name_change lower name s)

abbrev pub named : (List ℕ → List ℕ) → List ℕ → Builder → Builder
named lower name s = record s {
  form_data = record s.form_data { name = name; slug = generate_slug lower name };
}

abbrev pub last_of : List ℕ → List (List ℕ) → List ℕ
last_of name [] = name
last_of name (next ∷ names) = last_of next names

handle_name_change-named :
    (lower : List ℕ → List ℕ) (name : List ℕ) (s : Builder)
    → follows lower s ≡ true
    → handle_name_change lower name s ≡ named lower name s
unfolding handle_name_change
handle_name_change-named lower name s h = rw h refl

named-follows :
    (lower : List ℕ → List ℕ) (name : List ℕ) (s : Builder)
    → follows lower (named lower name s) ≡ true
named-follows lower name s = ground (arith, same_refl (generate_slug lower name))

-- On a page whose slug is empty or the name's, any number of changes of the name leave the name that was entered
-- last with its slug, and change nothing else.
pub change_names-named :
    (lower : List ℕ → List ℕ) (name : List ℕ) (names : List (List ℕ)) (s : Builder)
    → follows lower s ≡ true
    → change_names lower (name ∷ names) s ≡ named lower (last_of name names) s
unfolding change_names
change_names-named lower name [] s h = handle_name_change-named lower name s h
change_names-named lower name (next ∷ names) s h =
    ap (change_names lower (next ∷ names)) (handle_name_change-named lower name s h)
    ∙ change_names-named lower next names (named lower name s) (named-follows lower name s)
