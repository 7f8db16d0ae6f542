-- ===== src/Mobile/Timeline/Sections.antt =====
-- mobile/features/events/EventListScreen.tsx: the timeline against one section after the other, a month each.
use mathlib.Core.List.{Perm, perm_middle, append-nil, append_assoc}
use mathlib.Core.List.Perm
use unity_runn.Prelude.{
  AreDistinct, String, some, List, [], ◌∷◌, ◌++◌, Bool, true, false, not, any, length, All,
  All-keep, All-weaken, str_eq, eq_refl, Bool-cases, ◌≡◌, refl, ap, ◌∙◌, arith, inl, inr,
}
use unity_runn.Prelude.Sorting.{sort_by-Perm}
use unity_runn.Mobile.Timeline.{
  event_month_key, heading_key, RunEvent, TimelineItem, month, event, Calendar, Buckets, Groups,
  has_bucket, push_event, opened_group, add_event, group_events, later_rows, month_items, items_of,
  sorted_events, build_timeline,
}
use unity_runn.Mobile.Timeline.Months.{
  months_of, in_month, entries, grouped, months_of-AreDistinct, bucket_of-map, group_events-grouped,
}

abbrev pub in_months : Calendar → List String → List RunEvent → List RunEvent
in_months c [] rows = []
in_months c (k ∷ ks) rows = in_month c k rows ++ in_months c ks rows

-- A heading with the number of the events that follow it
abbrev pub section : Calendar → String → List RunEvent → List TimelineItem
section c key [] = []
section c key (e ∷ es) =
    month (heading_key key) (c.event_month_label e.event_date) (length (e ∷ es))
    ∷ event e.id e 12
    ∷ later_rows es

abbrev pub sections : Calendar → List String → List RunEvent → List TimelineItem
sections c [] rows = []
sections c (k ∷ ks) rows = section c k (in_month c k rows) ++ sections c ks rows

abbrev pub is_empty : List RunEvent → Bool
is_empty [] = true
is_empty (e ∷ es) = false

in_month-grows :
    (c : Calendar) (k : String) (e : RunEvent) (es : List RunEvent)
    → is_empty (in_month c k es) ≡ false
    → is_empty (in_month c k (e ∷ es)) ≡ false
in_month-grows c k e es h = ground arith

months_of-full :
    (c : Calendar) (rows : List RunEvent)
    → All (λ k. is_empty (in_month c k rows) ≡ false) (months_of c rows)
months_of-full c [] = tt
months_of-full c (e ∷ es) =
    let key = event_month_key e.event_date in
    let Full = λ (k : String). is_empty (in_month c k (e ∷ es)) ≡ false in
    (
      ground (arith, eq_refl key),
      All-keep Full (λ k. not (str_eq k key)) (months_of c es)
          (All-weaken (λ k. in_month-grows c k e es) (months_of c es) (months_of-full c es)),
    )

found_later :
    (x k : String) (qs : List String)
    → any (λ y. str_eq y k) qs ≡ true
    → any (λ y. str_eq y k) (x ∷ qs) ≡ true
found_later x k qs h = ground arith

-- Every key of a list is found in it.
all-found : (ks : List String) → All (λ k. any (λ y. str_eq y k) ks ≡ true) ks
all-found [] = tt
all-found (k ∷ ks) =
    (ground (arith, eq_refl k), All-weaken (λ x. found_later k x ks) ks (all-found ks))

month_items-section :
    (c : Calendar) (key : String) (es : List RunEvent)
    → is_empty es ≡ false
    → month_items c key es ≡ some (section c key es)
month_items-section c key [] h = ground arith
month_items-section c key (e ∷ es) h = refl

items_of-entries :
    (c : Calendar) (rows : List RunEvent) (qs ks : List String)
    → All (λ k. any (λ y. str_eq y k) qs ≡ true) ks
    → All (λ k. is_empty (in_month c k rows) ≡ false) ks
    → items_of c ks (entries (λ k. in_month c k rows) qs) ≡ some (sections c ks rows)
items_of-entries c rows qs [] found full = refl
items_of-entries c rows qs (k ∷ ks) (here, found) (one, full) =
    rw
      (
        bucket_of-map k (λ x. in_month c x rows) qs here,
        month_items-section c k (in_month c k rows) one,
        items_of-entries c rows qs ks found full,
      )
      refl

abbrev all_events : Buckets → List RunEvent
all_events [] = []
all_events ((k, es) ∷ rest) = es ++ all_events rest

push_event-Perm :
    (key : String) (e : RunEvent) (buckets : Buckets)
    → has_bucket key buckets ≡ true
    → Perm (all_events (push_event key e buckets)) (e ∷ all_events buckets)
push_event-Perm key e [] h = ground arith
push_event-Perm key e ((k, es) ∷ rest) h = elim (Bool-cases (str_eq k key)) [
  | inl same ↦
      rw (same, append_assoc es (e ∷ []) (all_events rest)) (perm_middle es (all_events rest))
  | inr other ↦ rw other (
      Perm.trans (Perm.append_left es (push_event-Perm key e rest (ground arith)))
        (perm_middle es (all_events rest)))
]

has-new : (key : String) (buckets : Buckets) → has_bucket key (buckets ++ ((key, []) ∷ [])) ≡ true
has-new key [] = ground (arith, eq_refl key)
has-new key (b ∷ buckets) = ground (arith, has-new key buckets)

events-new :
    (key : String) (buckets : Buckets)
    → all_events (buckets ++ ((key, []) ∷ [])) ≡ all_events buckets
events-new key [] = refl
events-new key ((k, es) ∷ rest) = ap (◌++◌ es) (events-new key rest)

opened-has : (key : String) (g : Groups) → has_bucket key (opened_group key g).month_buckets ≡ true
opened-has key g = elim (Bool-cases (has_bucket key g.month_buckets)) [
  | inl seen ↦ rw seen seen
  | inr new ↦ rw new (has-new key g.month_buckets)
]

opened-events :
    (key : String) (g : Groups)
    → all_events (opened_group key g).month_buckets ≡ all_events g.month_buckets
opened-events key g = elim (Bool-cases (has_bucket key g.month_buckets)) [
  | inl seen ↦ rw seen refl
  | inr new ↦ rw new (events-new key g.month_buckets)
]

add_event-Perm :
    (c : Calendar) (e : RunEvent) (g : Groups)
    → Perm (all_events (add_event c e g).month_buckets) (e ∷ all_events g.month_buckets)
add_event-Perm c e g =
    let key = event_month_key e.event_date in
    rw (opened-events key g) at
      (push_event-Perm key e (opened_group key g).month_buckets (opened-has key g))

group_events-Perm :
    (c : Calendar) (es : List RunEvent) (g : Groups)
    → Perm (all_events (group_events c es g).month_buckets) (all_events g.month_buckets ++ es)
unfolding group_events
group_events-Perm c [] g = rw append-nil Perm.rfl
group_events-Perm c (e ∷ es) g = Perm.trans (group_events-Perm c es (add_event c e g)) (
    Perm.trans (Perm.append_right es (add_event-Perm c e g))
      (Perm.symm (perm_middle (all_events g.month_buckets) es)))

all_events-entries :
    (c : Calendar) (rows : List RunEvent) (ks : List String)
    → all_events (entries (λ k. in_month c k rows) ks) ≡ in_months c ks rows
all_events-entries c rows [] = refl
all_events-entries c rows (k ∷ ks) = ap (◌++◌ (in_month c k rows)) (all_events-entries c rows ks)

sections-Perm :
    (c : Calendar) (rows : List RunEvent) (ascending : Bool)
    → let sorted = sorted_events c ascending rows in
      Perm (in_months c (months_of c sorted) sorted) rows
unfolding sorted_events
sections-Perm c rows ascending =
    let sorted = sorted_events c ascending rows in
    let grown = group_events-Perm c sorted (grouped c []) in
    let known =
      rw (group_events-grouped c [] sorted, all_events-entries c sorted (months_of c sorted)) at
        grown in
    Perm.trans known (sort_by-Perm _ rows)

-- The timeline of a list of events is one section for each month, in the order in which the months first appear
-- among the sorted events: a heading with the number of the events of the month, and these events as they are
-- sorted. No month is empty, so that nothing is thrown, no month has two sections, and the events of all sections
-- are the events of the list, each of them once.
pub build_timeline-sections :
    (c : Calendar) (rows : List RunEvent) (ascending : Bool)
    → let sorted = sorted_events c ascending rows in
      let months = months_of c sorted in
      (build_timeline c rows ascending ≡ some (sections c months sorted))
      × All (λ k. is_empty (in_month c k sorted) ≡ false) months
      × AreDistinct months
      × Perm (in_months c months sorted) rows
unfolding build_timeline
build_timeline-sections c rows ascending =
    let sorted = sorted_events c ascending rows in
    let months = months_of c sorted in
    let same = group_events-grouped c [] sorted in
    let full = months_of-full c sorted in
    (
      ap (λ (g : Groups). items_of c g.month_order g.month_buckets) same
          ∙ items_of-entries c sorted months months (all-found months) full,
      full,
      months_of-AreDistinct c sorted,
      sections-Perm c rows ascending,
    )
