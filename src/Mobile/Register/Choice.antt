-- ===== src/Mobile/Register/Choice.antt =====
-- The category that is chosen, and when the form is shown.
use unity_runn.Prelude.{
  ℕ, String, ◌≡◌, ◌≢◌, arith, none, some, List, [], ◌∷◌, Bool, true, false, ◌⊎◌, ◌↔◌, inl, inr,
  truthy, str_eq, any, Bool-cases, Option-cases, eq_iff,
}
use unity_runn.Mobile.Entries.{
  Category, Times, Availability, registration_deadline_closed, find_category,
}
use unity_runn.Mobile.Register.{
  Screen, Event, Entry, open_categories, is_unavailable, check_category, is_active_entry,
  can_register, form, view,
}

find_category-open :
    (id : String) (cs : List Category) (c : Category)
    → find_category id (open_categories cs) ≡ some c
    → (str_eq c.id id ≡ true) × (str_eq c.status "OPEN" ≡ true)
unfolding open_categories
find_category-open id [] c h = ground arith
find_category-open id (x ∷ cs) c h = ground (arith, find_category-open id cs c)

-- After the check no category is chosen, or one of the event's that is open, has a place left as far as is
-- known, and is not past its deadline.
pub check_category-chosen :
    (time_of : Times) (now : ℕ) (places : Availability) (cs : List Category) (s : Screen)
    → let t = check_category time_of now places cs s in
      (t.category ≡ "")
      ⊎ ((t.category ≡ s.category)
          × ((c : Category) × (str_eq c.id s.category ≡ true)
              × (str_eq c.status "OPEN" ≡ true)
              × (places s.category ≢ some 0)
              × (registration_deadline_closed time_of c.registration_deadline now ≡ false)))
unfolding check_category
check_category-chosen time_of now places cs s =
    elim (Option-cases (find_category s.category (open_categories cs))) [
      | inl missing ↦ ground (arith, eq_iff s.category "")
      | inr (c, found) ↦ elim (Bool-cases (truthy s.category)) [
        | inr empty ↦ inl (ground (arith, eq_iff s.category ""))
        | inl chosen ↦ elim (Bool-cases (is_unavailable time_of now (places s.category) (some c))) [
          | inl gone ↦ inl (ground arith)
          | inr fits ↦
              let (same, is_open) = find_category-open s.category cs c found in
              inr (ground arith, (c, same, is_open, ground arith, ground arith))
        ]
      ]
    ]

-- The form is shown exactly to a user who is signed in and has no active entry of the event, once the event
-- is loaded, while its registration is open and one of its categories is; and never without an event.
pub view-form :
    (session_loading authenticated query_loading query_failed : Bool) (e : Event)
    (mine : List Entry)
    → ((view session_loading authenticated query_loading query_failed (some e) mine ≡ form) ↔ (
        (session_loading ≡ false)
        × (query_loading ≡ false)
        × (authenticated ≡ true)
        × (query_failed ≡ false)
        × (any (is_active_entry e.id) mine ≡ false)
        × (can_register e ≡ true)))
      × (view session_loading authenticated query_loading query_failed none mine ≢ form)
unfolding view
view-form a b c d e mine = ground arith
