-- ===== src/Web/CheckIn/Counts.antt =====
-- frontend/src/pages/admin/checkin/index.tsx: the numbers that the station shows, and what a scan does to them.
use unity_runn.Prelude.{
  ℕ, suc, ◌+◌, ◌-◌, ◌≤◌, String, some, List, [], ◌∷◌, Bool, true, ◌&&◌, truthy, str_eq, keep, map,
  length, ◌≡◌, refl, ap, ◌∙◌, arith, inl, inr, ◌⊎◌, Bool-cases,
}
use unity_runn.Exec.{Result, ok, err}
use unity_runn.Web.CheckIn.{
  Registration, RecentCheckin, ResultStatus, success, already_checked_in, failed, ScanResult,
  Station, has_text,
}
use unity_runn.Web.CheckIn.Scans.{check_in, scan_accepted}

abbrev pub confirmed_registrations : Station → List Registration
confirmed_registrations s =
    keep (λ r. str_eq r.event_id s.selected_event_id && str_eq r.status "CONFIRMED") s.registrations

abbrev pub is_checked_in : Registration → Bool
is_checked_in r = has_text r.checked_in_at

unfoldable pub checked_in_count : Station → ℕ
checked_in_count s = length (keep is_checked_in (confirmed_registrations s))

unfoldable pub confirmed_count : Station → ℕ
confirmed_count s = length (confirmed_registrations s)

-- `Math.max(0, confirmedCount - checkedInCount)`
unfoldable pub remaining_count : Station → ℕ
remaining_count s = confirmed_count s - checked_in_count s

keep-map :
    (p : Registration → Bool) (f : Registration → Registration) (rs : List Registration)
    → ((r : Registration) → p (f r) ≡ p r)
    → keep p (map f rs) ≡ map f (keep p rs)
keep-map p f [] same = refl
keep-map p f (r ∷ rs) same =
    let rest = keep-map p f rs same in
    elim (Bool-cases (p r)) [
      | inl held ↦ rw (same r, held) (ap (λ xs. f r ∷ xs) rest)
      | inr gone ↦ rw (same r, gone) rest
    ]

length-map :
    (f : Registration → Registration) (rs : List Registration) → length (map f rs) ≡ length rs
length-map f [] = refl
length-map f (r ∷ rs) = ap suc (length-map f rs)

length-keep : (p : Registration → Bool) (rs : List Registration) → length (keep p rs) ≤ length rs
length-keep p [] = omega arith
length-keep p (r ∷ rs) = ground (arith, length-keep p rs)

length-keep-check_in :
    (id at : String) (rs : List Registration)
    → truthy at ≡ true
    → length (keep is_checked_in rs) ≤ length (keep is_checked_in (map (check_in id at) rs))
length-keep-check_in id at [] real = omega arith
length-keep-check_in id at (r ∷ rs) real = ground (arith, length-keep-check_in id at rs real)

numbers :
    {c d k l m : ℕ}
    → d ≡ c
    → l ≡ m
    → k ≤ m
    → l ≤ d
    → (d ≡ c) × (k ≤ l) × (d - l ≤ c - k) × (l + (d - l) ≡ d)
numbers same checked more fewer = (
  same,
  omega (arith, checked, more),
  omega (arith, same, checked, more, fewer),
  omega (arith, fewer),
)

confirmed-scan_accepted :
    (r : Registration) (at now : String) (s : Station)
    → confirmed_registrations (scan_accepted r at now s)
      ≡ map (check_in r.id at) (confirmed_registrations s)
unfolding scan_accepted
confirmed-scan_accepted r at now s =
    keep-map (λ q. str_eq q.event_id s.selected_event_id && str_eq q.status "CONFIRMED")
      (check_in r.id at) s.registrations (λ q. ground arith)

-- A scan that the service accepts with a time leaves the number of confirmed runners as it is, takes back
-- none of those that were checked in, does not raise the number of the remaining ones, and the checked-in and
-- the remaining runners are the confirmed ones.
pub scan_accepted-counts :
    (r : Registration) (at now : String) (s : Station)
    → truthy at ≡ true
    → let t = scan_accepted r at now s in
      (confirmed_count t ≡ confirmed_count s)
      × (checked_in_count s ≤ checked_in_count t)
      × (remaining_count t ≤ remaining_count s)
      × (checked_in_count t + remaining_count t ≡ confirmed_count t)
unfolding checked_in_count confirmed_count remaining_count
scan_accepted-counts r at now s real =
    let before = confirmed_registrations s in
    let after = confirmed-scan_accepted r at now s in
    let same = ap length after ∙ length-map (check_in r.id at) before in
    let checked = ap (λ rs. length (keep is_checked_in rs)) after in
    let more = length-keep-check_in r.id at before real in
    let fewer = length-keep is_checked_in (confirmed_registrations (scan_accepted r at now s)) in
    numbers same checked more fewer

abbrev pub Shows : Station → ResultStatus → Type 0
Shows s status = (x : ScanResult) × (s.last_result ≡ some x) × (x.status ≡ status)

-- What a scan leaves, at a station with the given lists, whose call the service answers by `r`
abbrev pub Ends :
    Result (Registration × String) → List Registration → List RecentCheckin → Station → Type 0
Ends (ok (r, at)) rs recent t = Shows t success × (t.registrations ≡ map (check_in r.id at) rs)
Ends (err e) rs recent t =
    (Shows t already_checked_in ⊎ Shows t failed)
    × (t.registrations ≡ rs)
    × (t.recent_checkins ≡ recent)
