-- ===== src/Web/CategoriesEditor/Edits.antt =====
-- frontend/src/components/admin/EventCategoriesEditor.tsx: what a category sends that is opened and saved.
use unity_runn.Prelude.{Option, none, some, ◌≡◌}
use unity_runn.Web.CategoriesEditor.{EventCategory, CategoriesEditor, CategoryPayload, FieldTools}

module _ {N : Type 0} (j : FieldTools N) where
  -- The values of a category that a payload sets
  abbrev pub Sets : Option (CategoryPayload N) → EventCategory N → Type 0
  Sets none category = Unit
  Sets (some p) category =
      ((p.name ≡ j.trim category.name) × (p.distance ≡ j.trim category.distance))
      × ((p.price_cents ≡ category.price_cents) × (p.currency ≡ category.currency))
      × ((p.capacity ≡ category.capacity) × (p.status ≡ some category.status))
