-- ===== src/Mobile/Timeline/Rows.antt =====
-- mobile/features/events/EventListScreen.tsx: the rows of the list against the pages that the service sent.
use unity_runn.Prelude.{
  eq_same, eq_join, AreDistinct, String, Option, none, some, List, [], ◌∷◌, true, any, map, str_eq,
  eq_iff, eq_refl, if◌then◌else◌, Bool-cases, ◌≡◌, refl, sym, ap, ◌∙◌, arith, inl, inr,
}
use unity_runn.Mobile.Timeline.{RunEvent, ListPage, flat_pages, set_row, rows_from, list_rows}

abbrev pub ids : List RunEvent → List String
ids rows = map (λ e. e.id) rows

-- The first row with an id
abbrev pub find_row : String → List RunEvent → Option RunEvent
find_row id [] = none
find_row id (r ∷ rs) = if str_eq r.id id then some r else find_row id rs

abbrev either : Option RunEvent → Option RunEvent → Option RunEvent
either none o = o
either (some e) o = some e

-- The last event with an id
abbrev pub last_event : String → List RunEvent → Option RunEvent
last_event id [] = none
last_event id (e ∷ es) = either (last_event id es) (if str_eq e.id id then some e else none)

abbrev one_row : String → RunEvent → Option RunEvent
one_row id e = if str_eq e.id id then some e else none

find_row-set_row :
    (id : String) (e : RunEvent) (rows : List RunEvent)
    → find_row id (set_row e rows) ≡ either (one_row id e) (find_row id rows)
find_row-set_row id e [] = ground arith
find_row-set_row id e (r ∷ rs) =
    ground (arith, eq_same r.id e.id id, eq_join r.id e.id id, find_row-set_row id e rs)

either_assoc : (a b c : Option RunEvent) → either (either a b) c ≡ either a (either b c)
either_assoc none b c = refl
either_assoc (some e) b c = refl

find_row-rows_from :
    (id : String) (es rows : List RunEvent)
    → find_row id (rows_from es rows) ≡ either (last_event id es) (find_row id rows)
find_row-rows_from id [] rows = refl
find_row-rows_from id (e ∷ es) rows =
    find_row-rows_from id es (set_row e rows)
    ∙ ap (either (last_event id es)) (find_row-set_row id e rows)
    ∙ sym (either_assoc (last_event id es) (one_row id e) (find_row id rows))

has-set_row :
    (id : String) (e : RunEvent) (rows : List RunEvent)
    → any (λ x. str_eq x id) (ids (set_row e rows))
      ≡ (if any (λ x. str_eq x id) (ids rows) then true else str_eq e.id id)
has-set_row id e [] = ground arith
has-set_row id e (r ∷ rs) =
    ground (arith, eq_same r.id e.id id, eq_join r.id e.id id, has-set_row id e rs)

set_row-AreDistinct :
    (e : RunEvent) (rows : List RunEvent)
    → AreDistinct (ids rows)
    → AreDistinct (ids (set_row e rows))
set_row-AreDistinct e [] d = (refl, tt)
set_row-AreDistinct e (r ∷ rs) (fresh, d) = elim (Bool-cases (str_eq r.id e.id)) [
  | inl same ↦
      rw same
        (ap (λ k. any (λ x. str_eq x k) (ids rs)) (sym ((eq_iff r.id e.id).0 same)) ∙ fresh, d)
  | inr other ↦ rw other (
    ground (arith, has-set_row r.id e rs, eq_iff e.id r.id, eq_refl r.id),
    set_row-AreDistinct e rs d,
  )
]

rows_from-AreDistinct :
    (es rows : List RunEvent) → AreDistinct (ids rows) → AreDistinct (ids (rows_from es rows))
rows_from-AreDistinct [] rows d = d
rows_from-AreDistinct (e ∷ es) rows d =
    rows_from-AreDistinct es (set_row e rows) (set_row-AreDistinct e rows d)

either-none : (o : Option RunEvent) → either o none ≡ o
either-none none = refl
either-none (some e) = refl

-- The rows of the list have different ids, and the row with an id is the event with this id that the service sent
-- last: an event that two pages hold is shown once, and as the later page has it.
pub list_rows-last_event :
    (pages : List ListPage)
    → AreDistinct (ids (list_rows pages))
      × ((id : String) → find_row id (list_rows pages) ≡ last_event id (flat_pages pages))
unfolding list_rows
list_rows-last_event pages = (
  rows_from-AreDistinct (flat_pages pages) [] tt,
  λ id.
      find_row-rows_from id (flat_pages pages) [] ∙ either-none (last_event id (flat_pages pages)),
)
