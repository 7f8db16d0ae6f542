-- ===== src/Web/EventEditor/Statuses.antt =====
-- frontend/src/pages/admin/events/[id]/edit.tsx: the buttons that change the status of an event.
use unity_runn.Prelude.{
  String, Option, none, some, List, [], ◌∷◌, Bool, true, false, not, ◌&&◌, if◌then◌else◌, ◌≡◌, ◌⊎◌,
}
use unity_runn.Exec.{Result, ok}
use unity_runn.Web.EventEditor.{
  EventStatus, status_transitions, EventRecord, EditPage, start_status, end_status,
}
use unity_runn.Web.EventEditor.Lifecycle.{offers, ◌⟶*◌}

-- The button that is pressed, the answer to the question that it may ask, and the answer of the service
pub record Press (N : Type 0) : Type 0 where
  pub next : EventStatus
  pub confirmed : Bool
  pub answer : Result (EventRecord N)

module _ {N : Type 0} where
  abbrev pub is_offered : EventStatus → Option (EventRecord N) → Bool
  is_offered next none = false
  is_offered next (some event) = offers (status_transitions event.status) next

  abbrev pub answer_press : Press N → Option (String × EventStatus) × EditPage N → EditPage N
  answer_press p (none, s) = s
  answer_press p (some call, s) = end_status p.next p.answer s

  -- Only the changes that are offered have a button, and it is disabled while a change is going on.
  unfoldable pub press : Press N → EditPage N → EditPage N
  press p s =
      if is_offered p.next s.event && not s.status_updating
      then answer_press p (start_status p.next p.confirmed s)
      else s

  unfoldable pub press_all : List (Press N) → EditPage N → EditPage N
  press_all [] s = s
  press_all (p ∷ ps) s = press_all ps (press p s)

  -- The service sends back the event with the status that was asked for.
  abbrev pub IsHonest : Press N → Type 0
  IsHonest p = (u : EventRecord N) → p.answer ≡ ok u → u.status ≡ p.next

  abbrev asked : EditPage N → EditPage N
  asked s = record s { status_updating = true; error = none }

  abbrev Outcome : Press N → EventRecord N → EditPage N → EditPage N → Type 0
  Outcome p e s t =
      (t ≡ s)
      ⊎ ((offers (status_transitions e.status) p.next ≡ true)
          × (t ≡ end_status p.next p.answer (asked s)))

  abbrev Shown : EventRecord N → EditPage N → Type 0
  Shown e t = (u : EventRecord N) × (t.event ≡ some u) × (e.status ⟶* u.status)
