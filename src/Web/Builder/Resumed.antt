-- ===== src/Web/Builder/Resumed.antt =====
-- frontend/src/pages/admin/events/new.tsx: a draft that the browser keeps brings the page back.
use unity_runn.Prelude.{
  ℕ, String, Option, some, true, ◌≡◌, refl, sym, ap, ◌∙◌, arith, inl, inr, Bool-cases,
}
use unity_runn.Web.Builder.{SavedEventDraft, Stored, saved, Builder, opened_page}
use unity_runn.Web.Builder.Draft.{
  or_null, or_null_codes, clipped, is_meaningful, asks_service, resume_stored, resume_draft,
  restore_draft, draft_of, save_draft,
}
use unity_runn.Web.Builder.Steps.{located, IsSound}

clipped-located : (step : ℕ) (id : Option String) → located step id ≡ true → clipped step ≡ step
clipped-located step id h = ground arith

draft_of-restore_draft :
    (d : SavedEventDraft) (s : Builder)
    → clipped d.step ≡ d.step
    → or_null d.event_id ≡ d.event_id
    → or_null_codes d.event_slug ≡ d.event_slug
    → draft_of (restore_draft d s) ≡ d
unfolding restore_draft
draft_of-restore_draft d s step id slug =
    λ x. record d { step = step x; event_id = id x; event_slug = slug x }

restored :
    (d : SavedEventDraft) (s : Builder)
    → is_meaningful d ≡ true
    → (draft_of (resume_stored (some (saved d)) s) ≡ draft_of (restore_draft d s))
      × ((resume_stored (some (saved d)) s).cover_image_ref ≡ (restore_draft d s).cover_image_ref)
restored d s meaningful = elim (Bool-cases (asks_service d)) [
  | inl asks ↦ rw (meaningful, asks) (refl, refl)
  | inr quiet ↦ rw (meaningful, quiet) (refl, refl)
]

stored-save_draft :
    (s : Builder) → s.draft_ready ≡ true → (save_draft s).storage ≡ some (saved (draft_of s))
unfolding save_draft
stored-save_draft s ready = rw ready refl

reopened : Option Stored → Builder
reopened o = resume_draft (opened_page o)

-- A draft with something in it that was saved on a sound page, once the page had looked for an older draft,
-- brings back everything of the page that it holds, and the poster that would be submitted, when the page is
-- opened again, if the event's id and slug are not empty.
pub resume_draft-save_draft :
    (s : Builder)
    → IsSound s
    → s.draft_ready ≡ true
    → is_meaningful (draft_of s) ≡ true
    → or_null s.event_id ≡ s.event_id
    → or_null_codes s.event_slug ≡ s.event_slug
    → (draft_of (resume_draft (opened_page (save_draft s).storage)) ≡ draft_of s)
      × ((resume_draft (opened_page (save_draft s).storage)).cover_image_ref ≡ s.cover_image_ref)
unfolding resume_draft restore_draft reopened
resume_draft-save_draft s sound ready meaningful id slug =
    let stored = stored-save_draft s ready in
    let d = draft_of s in
    let same = restored d (opened_page (some (saved d))) meaningful in
    let step = clipped-located s.step s.event_id sound.0 in
    (
      ap (λ o. draft_of (reopened o)) stored
          ∙ (same.0 ∙ draft_of-restore_draft d (opened_page (some (saved d))) step id slug),
      ap (λ o. (reopened o).cover_image_ref) stored ∙ (same.1 ∙ sym sound.1),
    )
