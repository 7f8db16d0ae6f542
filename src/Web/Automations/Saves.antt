-- ===== src/Web/Automations/Saves.antt =====
-- frontend/src/components/admin/EventAutomationEditor.tsx: what is saved, and loads that a save overtakes.
use unity_runn.Prelude.{
  ℕ, suc, String, Option, none, some, List, Bool, true, false, not, ◌||◌, ◌==◌, truthy, is_some,
  if◌then◌else◌, ◌≡◌, refl, ap, ◌∙◌, arith,
}
use unity_runn.Exec.{Result, ok, err}
use unity_runn.Web.Automations.{
  ComposerDraft, EventAutomation, Editor, Clock, Payload, start_load, end_load, draft_problem,
  validate_draft, shown, sent_draft, start_persist, end_persist, save_draft,
}

end_load-later :
    (revision : ℕ) (r : Result (List EventAutomation)) (s : Editor)
    → (revision == s.local_mutation) ≡ false
    → (end_load revision r s).items ≡ s.items
unfolding end_load
end_load-later revision (ok loaded) s later = rw later refl
end_load-later revision (err e) s later = refl

end_persist-revision :
    (j : Clock) (schedule : Bool) (r : Result EventAutomation) (s : Editor)
    → (end_persist schedule s.editing r (start_persist j schedule s).1).local_mutation
      ≡ suc s.local_mutation
unfolding end_persist start_persist
end_persist-revision j schedule (ok saved) s = refl
end_persist-revision j schedule (err e) s = refl

-- A load of the messages that began before a save and is answered after the save ended does not change the
-- messages that the save left, whatever the service answers to both.
pub end_load-overtaken :
    (j : Clock) (schedule : Bool) (saved : Result EventAutomation)
    (loaded : Result (List EventAutomation)) (s : Editor)
    → let t = end_persist schedule s.editing saved (start_persist j schedule s).1 in
      (end_load (start_load s) loaded t).items ≡ t.items
end_load-overtaken j schedule saved loaded s =
    let t = end_persist schedule s.editing saved (start_persist j schedule s).1 in
    end_load-later (start_load s) loaded t (ground (arith, end_persist-revision j schedule saved s))

draft_problem-none :
    (j : Clock) (d : ComposerDraft)
    → draft_problem j false d ≡ none
    → (truthy (j.trim d.name) ≡ true) × (truthy (j.trim d.message) ≡ true)
unfolding draft_problem
draft_problem-none j d h = ground arith

guarded-some :
    (j : Clock) (b : Bool) (problem : Option (String × String)) (s : Editor) (p : Payload)
    → let saving = if b then (none, s) else sent_draft j (not (is_some problem), shown problem s) in
      saving.0 ≡ some p
      → (b ≡ false)
        × (problem ≡ none)
        × (p ≡ (start_persist j false s).0)
        × ((if b then (none, s) else sent_draft j (not (is_some problem), shown problem s)).1
            ≡ (start_persist j false s).1)
guarded-some j true problem s p sent = ground (arith, sent)
guarded-some j false none s p sent = (refl, refl, ground (arith, sent), refl)
guarded-some j false (some e) s p sent = ground (arith, sent)

save_draft-started :
    (j : Clock) (s : Editor) (p : Payload)
    → (save_draft j s).0 ≡ some p
    → ((s.busy || s.loading) ≡ false)
      × (draft_problem j false s.draft ≡ none)
      × (p ≡ (start_persist j false s).0)
      × ((save_draft j s).1 ≡ (start_persist j false s).1)
unfolding save_draft validate_draft
save_draft-started j s p sent =
    guarded-some j (s.busy || s.loading) (draft_problem j false s.draft) s p sent

started-payload :
    (j : Clock) (s : Editor)
    → let p = (start_persist j false s).0 in
      (p ≡ record {
        name = j.trim s.draft.name;
        message = j.trim s.draft.message;
        send_at = none;
        target = s.editing;
      })
      × ((start_persist j false s).1.busy ≡ true)
unfolding start_persist
started-payload j s = (refl, refl)

-- A message that is sent to be saved as a draft has a title and a text, names no time, updates the message that
-- is edited, and is sent only while nothing is loaded and no other message is saved; the editor is busy then.
pub save_draft-some :
    (j : Clock) (s : Editor) (p : Payload)
    → (save_draft j s).0 ≡ some p
    → ((truthy p.name ≡ true) × (truthy p.message ≡ true))
      × ((p.send_at ≡ none) × (p.target ≡ s.editing))
      × ((s.busy || s.loading) ≡ false)
      × ((save_draft j s).1.busy ≡ true)
save_draft-some j s p sent =
    let (idle, fine, same, after) = save_draft-started j s p sent in
    let (payload, busy) = started-payload j s in
    let whole = same ∙ payload in
    let texts = draft_problem-none j s.draft fine in
    (
      (ap (λ q. truthy q.name) whole ∙ texts.0, ap (λ q. truthy q.message) whole ∙ texts.1),
      (ap (λ q. q.send_at) whole, ap (λ q. q.target) whole),
      idle,
      ap (λ (e : Editor). e.busy) after ∙ busy,
    )
