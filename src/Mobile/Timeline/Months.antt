-- ===== src/Mobile/Timeline/Months.antt =====
-- mobile/features/events/EventListScreen.tsx: the groups of the events of a list by month.
use mathlib.Core.List.{append-nil, append_assoc}
use unity_runn.Prelude.{
  eq_sym, eq_same, AreDistinct, String, some, List, [], ◌∷◌, ◌++◌, Bool, true, false, not, any, map,
  keep, str_eq, eq_iff, if◌then◌else◌, Bool-cases, ◌≡◌, refl, sym, ap, ◌∙◌, arith, inl, inr,
}
use unity_runn.Mobile.Timeline.{
  event_month_key, RunEvent, Calendar, Buckets, Groups, bucket_of, has_bucket, push_event,
  opened_group, add_event, group_events,
}

-- The months of a list of events, in the order in which they first appear
abbrev pub months_of : Calendar → List RunEvent → List String
months_of c [] = []
months_of c (e ∷ es) =
    let key = event_month_key e.event_date in key ∷ keep (λ k. not (str_eq k key)) (months_of c es)

abbrev pub in_month : Calendar → String → List RunEvent → List RunEvent
in_month c key rows = keep (λ e. str_eq (event_month_key e.event_date) key) rows

keep-append :
    {A : Type 0} (p : A → Bool) (xs ys : List A) → keep p (xs ++ ys) ≡ keep p xs ++ keep p ys
keep-append p [] ys = refl
keep-append p (x ∷ xs) ys = elim (Bool-cases (p x)) [
  | inl h ↦ rw h (ap (◌∷◌ x) (keep-append p xs ys))
  | inr h ↦ rw h (keep-append p xs ys)
]

has-append :
    (p : String → Bool) (ks : List String) (k : String)
    → any p (ks ++ (k ∷ [])) ≡ (if any p ks then true else p k)
has-append p [] k = ground arith
has-append p (x ∷ ks) k = ground (arith, has-append p ks k)

any-keep_other :
    (key k : String) (ks : List String)
    → str_eq k key ≡ false
    → any (λ x. str_eq x key) (keep (λ x. not (str_eq x k)) ks) ≡ any (λ x. str_eq x key) ks
any-keep_other key k [] h = refl
any-keep_other key k (x ∷ ks) h = ground (arith, eq_same x k key, any-keep_other key k ks h)

-- A month that no event has is empty.
in_month-absent :
    (c : Calendar) (key : String) (rows : List RunEvent)
    → any (λ x. str_eq x key) (months_of c rows) ≡ false
    → in_month c key rows ≡ []
in_month-absent c key [] h = refl
in_month-absent c key (e ∷ es) h = ground (
  arith,
  any-keep_other key (event_month_key e.event_date) (months_of c es),
  in_month-absent c key es,
)

any-keep : (p q : String → Bool) (ks : List String) → any p ks ≡ false → any p (keep q ks) ≡ false
any-keep p q [] h = refl
any-keep p q (k ∷ ks) h = ground (arith, any-keep p q ks)

AreDistinct-keep : (q : String → Bool) (ks : List String) → AreDistinct ks → AreDistinct (keep q ks)
AreDistinct-keep q [] d = tt
AreDistinct-keep q (k ∷ ks) (fresh, d) = elim (Bool-cases (q k)) [
  | inl h ↦ rw h (any-keep (λ x. str_eq x k) q ks fresh, AreDistinct-keep q ks d)
  | inr h ↦ rw h (AreDistinct-keep q ks d)
]

any-kept_out :
    (key : String) (ks : List String)
    → any (λ x. str_eq x key) (keep (λ k. not (str_eq k key)) ks) ≡ false
any-kept_out key [] = refl
any-kept_out key (k ∷ ks) = ground (arith, any-kept_out key ks)

pub months_of-AreDistinct : (c : Calendar) (rows : List RunEvent) → AreDistinct (months_of c rows)
months_of-AreDistinct c [] = tt
months_of-AreDistinct c (e ∷ es) =
    let key = event_month_key e.event_date in
    (
      any-kept_out key (months_of c es),
      AreDistinct-keep (λ k. not (str_eq k key)) (months_of c es) (months_of-AreDistinct c es),
    )

abbrev pub entries : (String → List RunEvent) → List String → Buckets
entries f ks = map (λ k. (k, f k)) ks

abbrev with_event : RunEvent → String → (String → List RunEvent) → String → List RunEvent
with_event e key f k = f k ++ (if str_eq key k then e ∷ [] else [])

map-other :
    (e : RunEvent) (key : String) (f : String → List RunEvent) (ks : List String)
    → any (λ x. str_eq x key) ks ≡ false
    → entries (with_event e key f) ks ≡ entries f ks
map-other e key f [] h = refl
map-other e key f (k ∷ ks) h = ground (arith, eq_sym key k, append-nil (f k), map-other e key f ks)

push-map :
    (e : RunEvent) (key : String) (f : String → List RunEvent) (ks : List String)
    → AreDistinct ks
    → push_event key e (entries f ks) ≡ entries (with_event e key f) ks
push-map e key f [] d = refl
push-map e key f (k ∷ ks) (fresh, d) = elim (Bool-cases (str_eq k key)) [
  | inl h ↦ ground (arith, eq_sym k key, eq_iff k key, map-other e key f ks)
  | inr h ↦ ground (arith, eq_sym k key, append-nil (f k), push-map e key f ks d)
]

has-map :
    (key : String) (f : String → List RunEvent) (ks : List String)
    → has_bucket key (entries f ks) ≡ any (λ k. str_eq k key) ks
has-map key f [] = refl
has-map key f (k ∷ ks) = ground (arith, has-map key f ks)

pub bucket_of-map :
    (key : String) (f : String → List RunEvent) (ks : List String)
    → any (λ k. str_eq k key) ks ≡ true
    → bucket_of key (entries f ks) ≡ some (f key)
bucket_of-map key f [] h = ground arith
bucket_of-map key f (k ∷ ks) h = ground (arith, eq_iff k key, bucket_of-map key f ks)

abbrev unless_seen : String → List String → List String
unless_seen key ks = if any (λ k. str_eq k key) ks then [] else key ∷ []

keep-grown :
    (k key : String) (ks : List String)
    → keep (λ x. not (str_eq x k)) (ks ++ unless_seen key ks)
      ≡ keep (λ x. not (str_eq x k)) ks ++ unless_seen key (k ∷ keep (λ x. not (str_eq x k)) ks)
keep-grown k key ks = rw (keep-append (λ x. not (str_eq x k)) ks (unless_seen key ks)) (
    ap (◌++◌ (keep (λ x. not (str_eq x k)) ks))
      (ground (arith, eq_sym k key, any-keep_other key k ks)))

months_of-append :
    (c : Calendar) (rows : List RunEvent) (e : RunEvent)
    → months_of c (rows ++ (e ∷ []))
      ≡ months_of c rows ++ unless_seen (event_month_key e.event_date) (months_of c rows)
months_of-append c [] e = refl
months_of-append c (r ∷ rows) e =
    let k = event_month_key r.event_date in
    ap (◌∷◌ k) (
      ap (keep (λ x. not (str_eq x k))) (months_of-append c rows e)
      ∙ keep-grown k (event_month_key e.event_date) (months_of c rows))

in_month-append :
    (c : Calendar) (rows : List RunEvent) (e : RunEvent) (k : String)
    → in_month c k (rows ++ (e ∷ []))
      ≡ with_event e (event_month_key e.event_date) (λ x. in_month c x rows) k
in_month-append c rows e k =
    keep-append (λ x. str_eq (event_month_key x.event_date) k) rows (e ∷ [])

-- What the loop has built after a list of events
abbrev pub grouped : Calendar → List RunEvent → Groups
grouped c rows = record {
  month_order = months_of c rows;
  month_buckets = entries (λ k. in_month c k rows) (months_of c rows);
}

entries-ext :
    (f g : String → List RunEvent)
    → ((k : String) → f k ≡ g k)
    → (ks : List String) → entries f ks ≡ entries g ks
entries-ext f g h [] = refl
entries-ext f g h (k ∷ ks) = λ i. (k, h k i) ∷ entries-ext f g h ks i

entries-append :
    (f : String → List RunEvent) (ks : List String) (k : String)
    → entries f (ks ++ (k ∷ [])) ≡ entries f ks ++ ((k, f k) ∷ [])
entries-append f [] k = refl
entries-append f (x ∷ ks) k = ap (◌∷◌ (x, f x)) (entries-append f ks k)

opened-grouped :
    (c : Calendar) (rows : List RunEvent) (key : String)
    → let ks = months_of c rows ++ unless_seen key (months_of c rows) in
      opened_group key (grouped c rows)
      ≡ record { month_order = ks; month_buckets = entries (λ k. in_month c k rows) ks }
opened-grouped c rows key = elim (Bool-cases (any (λ k. str_eq k key) (months_of c rows))) [
  | inl seen ↦ rw (has-map key (λ k. in_month c k rows) (months_of c rows), seen, append-nil) refl
  | inr new ↦
      let f = λ (k : String). in_month c k rows in
      let ks = months_of c rows in
      rw (has-map key (λ k. in_month c k rows) (months_of c rows), new)
        (λ i. record {
          month_order = ks ++ (key ∷ []);
          month_buckets =
              sym
                (entries-append f ks key
                  ∙ ap (λ b. entries f ks ++ ((key, b) ∷ [])) (in_month-absent c key rows new))
                i;
        })
]

add_event-grouped :
    (c : Calendar) (rows : List RunEvent) (e : RunEvent)
    → add_event c e (grouped c rows) ≡ grouped c (rows ++ (e ∷ []))
add_event-grouped c rows e =
    let key = event_month_key e.event_date in
    let f = λ (k : String). in_month c k rows in
    let after = λ (k : String). in_month c k (rows ++ (e ∷ [])) in
    let ks = months_of c rows ++ unless_seen key (months_of c rows) in
    let same = months_of-append c rows e in
    let distinct = rw same at (months_of-AreDistinct c (rows ++ (e ∷ []))) in
    let pushed =
      push-map e key f ks distinct
      ∙ entries-ext (with_event e key f) after (λ k. sym (in_month-append c rows e k)) ks
      ∙ ap (entries after) (sym same) in
    ap (λ (g : Groups). record g { month_buckets = push_event key e g.month_buckets })
      (opened-grouped c rows key)
    ∙ (λ i. record { month_order = sym same i; month_buckets = pushed i })

pub group_events-grouped :
    (c : Calendar) (rows es : List RunEvent)
    → group_events c es (grouped c rows) ≡ grouped c (rows ++ es)
unfolding group_events
group_events-grouped c rows [] = ap (grouped c) (sym (append-nil rows))
group_events-grouped c rows (e ∷ es) =
    ap (group_events c es) (add_event-grouped c rows e)
    ∙ group_events-grouped c (rows ++ (e ∷ [])) es
    ∙ ap (grouped c) (append_assoc rows (e ∷ []) es)
