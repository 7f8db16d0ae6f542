-- ===== src/Mobile/Timeline.antt =====
-- mobile/features/events/EventListScreen.tsx: the rows of the list of events and the timeline that shows them by
-- month. The comparison of texts and the label of a month are parameters; dates are ASCII,
-- so that a byte is a character.
mod Examples
pub mod Months
pub mod Sections
pub mod Rows
pub mod Order
use Prim.Native.String
use Prim.Native.String.{slice}
use unity_runn.Prelude.{
  ℕ, String, Option, none, some, List, [], ◌∷◌, ◌++◌, Bool, true, false, any, map, length, or_else,
  str_eq, if◌then◌else◌,
}
use unity_runn.Prelude.Sorting.{sort_by}

pub record RunEvent : Type 0 where
  pub id : String
  pub event_date : String

pub data TimelineItem : Type 0 where
  month : (key label : String) → (count : ℕ) → TimelineItem
  event : (key : String) → RunEvent → (margin_top : ℕ) → TimelineItem

pub record ListPage : Type 0 where
  pub events : Option (List RunEvent)
  pub total : ℕ

-- The sign of what `localeCompare` returns
pub data Sign : Type 0 where
  negative zero_sign positive : Sign

abbrev pub negated : Sign → Sign
negated negative = positive
negated zero_sign = zero_sign
negated positive = negative

abbrev pub is_positive : Sign → Bool
is_positive positive = true
is_positive _ = false

-- `localeCompare`, and `eventMonthLabel`, which calls Intl
pub record Calendar : Type 0 where
  pub locale_compare : String → String → Sign
  pub event_month_label : String → String

unfoldable pub event_month_key : String → String
event_month_key value = slice value 0 7

unfoldable pub heading_key : String → String
heading_key key = String.◌++◌ "month-" key

abbrev pub compare_events : Calendar → (ascending : Bool) → RunEvent → RunEvent → Sign
compare_events c ascending a b =
    let cmp = c.locale_compare a.event_date b.event_date in if ascending then cmp else negated cmp

unfoldable pub sorted_events : Calendar → (ascending : Bool) → List RunEvent → List RunEvent
sorted_events c ascending rows = sort_by (λ a b. is_positive (compare_events c ascending a b)) rows

abbrev pub Buckets : Type 0
Buckets = List (String × List RunEvent)

-- `monthOrder` and `monthBuckets`, the entries of a Map in the order of their insertion
pub record Groups : Type 0 where
  pub month_order : List String
  pub month_buckets : Buckets

-- `monthBuckets.get(key)`
abbrev pub bucket_of : String → Buckets → Option (List RunEvent)
bucket_of key [] = none
bucket_of key ((k, events) ∷ rest) = if str_eq k key then some events else bucket_of key rest

abbrev pub has_bucket : String → Buckets → Bool
has_bucket key buckets = any (λ (b : String × List RunEvent). str_eq b.0 key) buckets

-- `monthBuckets.get(key)!.push(event)`
abbrev pub push_event : String → RunEvent → Buckets → Buckets
push_event key e [] = []
push_event key e ((k, events) ∷ rest) =
    let others = push_event key e rest in
    if str_eq k key then (k, events ++ (e ∷ [])) ∷ rest else (k, events) ∷ others

abbrev pub opened_group : String → Groups → Groups
opened_group key g = if has_bucket key g.month_buckets then g else record {
  month_order = g.month_order ++ (key ∷ []);
  month_buckets = g.month_buckets ++ ((key, []) ∷ []);
}

-- One round of the loop over the sorted events
abbrev pub add_event : Calendar → RunEvent → Groups → Groups
add_event c e g =
    let key = event_month_key e.event_date in
    let opened = opened_group key g in
    record opened { month_buckets = push_event key e opened.month_buckets }

unfoldable pub group_events : Calendar → List RunEvent → Groups → Groups
group_events c [] g = g
group_events c (e ∷ es) g = group_events c es (add_event c e g)

abbrev pub later_rows : List RunEvent → List TimelineItem
later_rows [] = []
later_rows (e ∷ es) = event e.id e 16 ∷ later_rows es

-- The items of one month. An empty month has no first event, and asking for its date throws.
abbrev pub month_items :
    Calendar → (month_key : String) → List RunEvent → Option (List TimelineItem)
month_items c key [] = none
month_items c key (e ∷ es) = some (
    month (heading_key key) (c.event_month_label e.event_date) (length (e ∷ es))
    ∷ event e.id e 12
    ∷ later_rows es)

abbrev both {ℓ} : {A : Type ℓ} → Option (List A) → Option (List A) → Option (List A)
both none _ = none
both (some xs) none = none
both (some xs) (some ys) = some (xs ++ ys)

abbrev pub items_of_bucket : Calendar → String → Option (List RunEvent) → Option (List TimelineItem)
items_of_bucket c key none = none
items_of_bucket c key (some events) = month_items c key events

abbrev pub items_of : Calendar → List String → Buckets → Option (List TimelineItem)
items_of c [] buckets = some []
items_of c (key ∷ keys) buckets =
    both (items_of_bucket c key (bucket_of key buckets)) (items_of c keys buckets)

-- `none` is an exception.
unfoldable pub build_timeline :
    Calendar → List RunEvent → (ascending : Bool) → Option (List TimelineItem)
build_timeline c rows ascending =
    let g =
      group_events c (sorted_events c ascending rows)
        (record { month_order = []; month_buckets = [] }) in
    items_of c g.month_order g.month_buckets

abbrev pub flat_pages : List ListPage → List RunEvent
flat_pages [] = []
flat_pages (p ∷ ps) = or_else p.events [] ++ flat_pages ps

-- `Map.set` by the id: an entry that is there keeps its place.
abbrev pub set_row : RunEvent → List RunEvent → List RunEvent
set_row e [] = e ∷ []
set_row e (r ∷ rs) = let rest = set_row e rs in if str_eq r.id e.id then e ∷ rs else r ∷ rest

abbrev pub rows_from : List RunEvent → List RunEvent → List RunEvent
rows_from [] rows = rows
rows_from (e ∷ es) rows = rows_from es (set_row e rows)

unfoldable pub list_rows : List ListPage → List RunEvent
list_rows pages = rows_from (flat_pages pages) []

pub data Season : Type 0 where
  ahead past : Season

abbrev pub active_statuses : Season → (open_only : Bool) → String
active_statuses past open_only = "COMPLETED"
active_statuses ahead open_only =
    if open_only then "REGISTRATION_OPEN" else "PUBLISHED,REGISTRATION_OPEN,REGISTRATION_CLOSED"

abbrev pub past_total : List ListPage → List RunEvent → ℕ
past_total [] rows = length rows
past_total (p ∷ ps) rows = p.total
