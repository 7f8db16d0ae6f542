-- ===== src/Mobile/Entries.antt =====
-- mobile/features/events/format.ts, mobile/features/events/queries.ts: what the screens share of events and
-- their categories. The reading of a time is a parameter.
pub mod Pages
use unity_runn.Prelude.{
  ℕ, zero, suc, ◌+◌, String, Option, none, some, List, [], ◌∷◌, Bool, true, false, ◌&&◌, ltb,
  truthy, str_eq, if◌then◌else◌,
}

pub record Category : Type 0 where
  pub id : String
  pub name : String
  pub status : String
  pub registration_deadline : Option String

-- `new Date(value).getTime()`, where it is finite
abbrev pub Times : Type 0
Times = String → Option ℕ

unfoldable pub registration_deadline_closed : Times → Option String → ℕ → Bool
registration_deadline_closed time_of none now = false
registration_deadline_closed time_of (some value) now =
    if truthy value
    then elim (time_of value) [ none ↦ false | some deadline ↦ ltb deadline now ]
    else false

-- The places that are left of a category, where they are known
abbrev pub Availability : Type 0
Availability = String → Option ℕ

abbrev pub find_category : String → List Category → Option Category
find_category id [] = none
find_category id (c ∷ cs) = if str_eq c.id id then some c else find_category id cs

-- A page of the list of events
pub record EventPage : Type 0 where
  pub count : ℕ
  pub offset : ℕ
  pub total : ℕ

-- `getNextPageParam`
unfoldable pub next_page : EventPage → Option ℕ
next_page p =
    if ltb (p.offset + p.count) p.total && ltb 0 p.count then some (p.offset + p.count) else none

-- The pages that are fetched one after the other while there is a next one, `fuel` of them at most.
unfoldable pub fetch_pages : (ℕ → EventPage) → ℕ → ℕ → List EventPage
fetch_pages service zero offset = []
fetch_pages service (suc fuel) offset = elim (next_page (service offset)) [
  | none ↦ service offset ∷ []
  | some next ↦ service offset ∷ fetch_pages service fuel next
]
