-- ===== src/Web/EventEditor/Lifecycle.antt =====
-- frontend/src/pages/admin/events/[id]/edit.tsx: the lifecycle of an event as a relation, and the table of the
-- changes that the page offers.

use unity_runn.Prelude.{
  ℕ, ◌+◌, ◌≤◌, ◌<◌, ◌↔◌, length, List, [], ◌∷◌, Bool, true, false, ◌≡◌, refl, arith,
}
use unity_runn.Web.EventEditor.{
  EventStatus, draft, published, registration_open, registration_closed, completed, cancelled,
  archived, status_transitions,
}

-- An event that is neither over nor called off
pub data IsLive : EventStatus → Type 0 where
  draft_live : IsLive draft
  published_live : IsLive published
  open_live : IsLive registration_open
  closed_live : IsLive registration_closed

infix 40 ◌⟶◌ ◌⟶*◌
pub data ◌⟶◌ : EventStatus → EventStatus → Type 0 where
  publish : draft ⟶ published
  open_registrations : published ⟶ registration_open
  close_registrations : registration_open ⟶ registration_closed
  complete : registration_closed ⟶ completed
  archive : completed ⟶ archived
  archive_cancelled : cancelled ⟶ archived
  cancel : {s : EventStatus} → IsLive s → s ⟶ cancelled

pub data ◌⟶*◌ : EventStatus → EventStatus → Type 0 where
  here : {s : EventStatus} → s ⟶* s
  then_to : {s t u : EventStatus} → s ⟶ t → t ⟶* u → s ⟶* u

ruleset live = (draft_live, published_live, open_live, closed_live)

ruleset changes =
    (publish, open_registrations, close_registrations, complete, archive, archive_cancelled, cancel)

abbrev same_status : EventStatus → EventStatus → Bool
same_status draft draft = true
same_status published published = true
same_status registration_open registration_open = true
same_status registration_closed registration_closed = true
same_status completed completed = true
same_status cancelled cancelled = true
same_status archived archived = true
same_status _ _ = false

abbrev pub offers : List EventStatus → EventStatus → Bool
offers [] next = false
offers (x ∷ xs) next = elim (same_status x next) [ true ↦ true | false ↦ offers xs next ]

pub offers-⟶ : (s t : EventStatus) → offers (status_transitions s) t ≡ true → s ⟶ t
offers-⟶ s t h = grind (arith, live, changes)

live-offers : {s : EventStatus} → IsLive s → offers (status_transitions s) cancelled ≡ true
live-offers draft_live = refl
live-offers published_live = refl
live-offers open_live = refl
live-offers closed_live = refl

⟶-offers : {s t : EventStatus} → s ⟶ t → offers (status_transitions s) t ≡ true
⟶-offers publish = refl
⟶-offers open_registrations = refl
⟶-offers close_registrations = refl
⟶-offers complete = refl
⟶-offers archive = refl
⟶-offers archive_cancelled = refl
⟶-offers (cancel l) = live-offers l

-- The changes of status that the page offers are exactly the ones of the lifecycle: from a draft through the
-- opening and the closing of its registrations to a completed event, the cancellation of an event that is not over,
-- and the archive for the events that are completed or cancelled.
pub offers_iff : (s t : EventStatus) → (offers (status_transitions s) t ≡ true) ↔ (s ⟶ t)
offers_iff s t = (offers-⟶ s t, ⟶-offers)

abbrev rank : EventStatus → ℕ
rank draft = 0
rank published = 1
rank registration_open = 2
rank registration_closed = 3
rank completed = 4
rank cancelled = 4
rank archived = 5

offers-rank : (s t : EventStatus) → offers (status_transitions s) t ≡ true → rank s < rank t
offers-rank s t h = ground (arith, h)

rank-le : (s : EventStatus) → rank s ≤ 5
rank-le s = ground arith

-- Each status of a list is offered in the one before.
abbrev pub Follows : EventStatus → List EventStatus → Type 0
Follows s [] = Unit
Follows s (t ∷ ts) = (offers (status_transitions s) t ≡ true) × Follows t ts

Follows-rank : (s : EventStatus) (ts : List EventStatus) → Follows s ts → rank s + length ts ≤ 5
Follows-rank s [] h = ground (arith, rank-le s)
Follows-rank s (t ∷ ts) (one, h) = omega (arith, offers-rank s t one, Follows-rank t ts h)

-- The status of an event changes at most five times by the changes that the page offers, one after the other.
pub Follows-length : (s : EventStatus) (ts : List EventStatus) → Follows s ts → length ts ≤ 5
Follows-length s ts h = omega (arith, Follows-rank s ts h)
