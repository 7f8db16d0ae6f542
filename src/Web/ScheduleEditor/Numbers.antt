-- ===== src/Web/ScheduleEditor/Numbers.antt =====
-- frontend/src/components/admin/EventScheduleEditor.tsx: the number that a new item of the schedule gets.
use unity_runn.Prelude.{ℕ, ◌+◌, ◌<◌, ◌≤◌, List, [], ◌∷◌, ◌++◌, All, All-weaken, ◌≡◌, refl, arith}
use unity_runn.Exec.{ok}
use unity_runn.Web.ScheduleEditor.{EventSchedule, ScheduleEditor, Script, highest, end_add_item}

highest-next :
    (items : List EventSchedule) (item : EventSchedule)
    → (item.sort_order ≤ highest (item ∷ items)) × (highest items ≤ highest (item ∷ items))
highest-next items item = ground arith

highest-All :
    (items : List EventSchedule)
    → All (λ (item : EventSchedule). item.sort_order ≤ highest items) items
highest-All [] = tt
highest-All (item ∷ items) =
    let (one, rest) = highest-next items item in
    (one, All-weaken (λ x le. omega (arith, le, rest)) items (highest-All items))

-- After an item was added, the form for the next one proposes the decimal text of a number that is greater than the
-- number of every item of the schedule that is shown.
pub end_add_item-next :
    (j : Script) (captured : List EventSchedule) (created : EventSchedule) (s : ScheduleEditor)
    → let t = end_add_item j captured (ok created) s in
      (n : ℕ) × (t.create_draft.sort_order ≡ j.decimal n)
      × All (λ (item : EventSchedule). item.sort_order < n) t.schedule
unfolding end_add_item
end_add_item-next j captured created s =
    let next = captured ++ (created ∷ []) in
    (highest next + 1, refl, All-weaken (λ item le. omega (arith, le)) next (highest-All next))
