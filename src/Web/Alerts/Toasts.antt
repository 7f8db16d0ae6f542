-- ===== src/Web/Alerts/Toasts.antt =====
-- frontend/src/components/alerts/AlertSystem.tsx: what holds of the notifications that are shown.
use unity_runn.Prelude.{
  ℕ, suc, ◌≤◌, ◌<◌, List, [], ◌∷◌, ◌++◌, Bool, true, false, not, ◌&&◌, ◌||◌, ◌==◌, ltb, any, keep,
  length, if◌then◌else◌, ◌≡◌, refl, arith, inl, inr, Bool-cases,
}
use unity_runn.Web.Alerts.{
  ToastInput, Toast, Alerts, last_three, is_timed, notify, dismiss, Happening, notified, dismissed,
  elapsed, step, run,
}

-- Whether all ids are below a number, they grow along the list, and whether each toast that is to go by itself
-- has a timer
abbrev pub below : ℕ → List Toast → Bool
below n [] = true
below n (t ∷ ts) = ltb t.id n && below n ts

abbrev above : ℕ → List Toast → Bool
above n [] = true
above n (t ∷ ts) = ltb n t.id && above n ts

abbrev pub grows : List Toast → Bool
grows [] = true
grows (t ∷ ts) = above t.id ts && grows ts

abbrev pub has_timer : List (ℕ × ℕ) → Toast → Bool
has_timer timers t = not (is_timed t.input) || any (λ (k : ℕ × ℕ). k.0 == t.id) timers

abbrev pub have_timers : List (ℕ × ℕ) → List Toast → Bool
have_timers timers [] = true
have_timers timers (t ∷ ts) = has_timer timers t && have_timers timers ts

abbrev pub IsKept : Alerts → Type 0
IsKept s =
    (length s.toasts ≤ 4)
    × (below s.next_id s.toasts ≡ true)
    × (grows s.toasts ≡ true)
    × (have_timers s.timers s.toasts ≡ true)

length-last_three : (ts : List Toast) → length (last_three ts) ≤ 3
unfolding last_three
length-last_three (a ∷ b ∷ c ∷ d ∷ s) = length-last_three (b ∷ c ∷ d ∷ s)
length-last_three (a ∷ b ∷ c ∷ []) = omega arith
length-last_three (a ∷ b ∷ []) = omega arith
length-last_three (a ∷ []) = omega arith
length-last_three [] = omega arith

below-last_three : (n : ℕ) (ts : List Toast) → below n ts ≡ true → below n (last_three ts) ≡ true
unfolding last_three
below-last_three n (a ∷ b ∷ c ∷ d ∷ s) h = below-last_three n (b ∷ c ∷ d ∷ s) (ground arith)
below-last_three n (a ∷ b ∷ c ∷ []) h = h
below-last_three n (a ∷ b ∷ []) h = h
below-last_three n (a ∷ []) h = h
below-last_three n [] h = h

grows-last_three : (ts : List Toast) → grows ts ≡ true → grows (last_three ts) ≡ true
unfolding last_three
grows-last_three (a ∷ b ∷ c ∷ d ∷ s) h = grows-last_three (b ∷ c ∷ d ∷ s) (ground arith)
grows-last_three (a ∷ b ∷ c ∷ []) h = h
grows-last_three (a ∷ b ∷ []) h = h
grows-last_three (a ∷ []) h = h
grows-last_three [] h = h

timers-last_three :
    (timers : List (ℕ × ℕ)) (ts : List Toast)
    → have_timers timers ts ≡ true
    → have_timers timers (last_three ts) ≡ true
unfolding last_three
timers-last_three timers (a ∷ b ∷ c ∷ d ∷ s) h =
    timers-last_three timers (b ∷ c ∷ d ∷ s) (ground arith)
timers-last_three timers (a ∷ b ∷ c ∷ []) h = h
timers-last_three timers (a ∷ b ∷ []) h = h
timers-last_three timers (a ∷ []) h = h
timers-last_three timers [] h = h

above-append :
    (n : ℕ) (t : Toast) (ts : List Toast)
    → n < t.id
    → above n ts ≡ true
    → above n (ts ++ (t ∷ [])) ≡ true
above-append n t [] h k = ground arith
above-append n t (u ∷ ts) h k = ground (arith, above-append n t ts)

grows-append :
    (t : Toast) (ts : List Toast)
    → below t.id ts ≡ true
    → grows ts ≡ true
    → grows (ts ++ (t ∷ [])) ≡ true
grows-append t [] h k = refl
grows-append t (u ∷ ts) h k = ground (arith, grows-append t ts, above-append u.id t ts)

below-append :
    (n : ℕ) (t : Toast) (ts : List Toast)
    → below t.id ts ≡ true
    → t.id < n
    → below n (ts ++ (t ∷ [])) ≡ true
below-append n t [] h k = ground arith
below-append n t (u ∷ ts) h k = ground (arith, below-append n t ts)

length-append_one : (t : Toast) (ts : List Toast) → length (ts ++ (t ∷ [])) ≡ suc (length ts)
length-append_one t [] = refl
length-append_one t (u ∷ ts) = omega (arith, length-append_one t ts)

timers-append :
    (timers : List (ℕ × ℕ)) (t : Toast) (ts : List Toast)
    → has_timer timers t ≡ true
    → have_timers timers ts ≡ true
    → have_timers timers (ts ++ (t ∷ [])) ≡ true
timers-append timers t [] own h = ground (arith, own)
timers-append timers t (u ∷ ts) own h = ground (arith, timers-append timers t ts own)

timers-more :
    (k : ℕ × ℕ) (timers : List (ℕ × ℕ)) (ts : List Toast)
    → have_timers timers ts ≡ true
    → have_timers (k ∷ timers) ts ≡ true
timers-more k timers [] h = refl
timers-more k timers (u ∷ ts) h = ground (arith, timers-more k timers ts)

timers-notify :
    (b : Bool) (k : ℕ × ℕ) (timers : List (ℕ × ℕ)) (t : Toast) (ts : List Toast)
    → k.0 ≡ t.id
    → is_timed t.input ≡ b
    → have_timers timers ts ≡ true
    → have_timers (if b then k ∷ timers else timers) (ts ++ (t ∷ [])) ≡ true
timers-notify true k timers t ts own timed h =
    timers-append (k ∷ timers) t ts (ground arith) (timers-more k timers ts h)
timers-notify false k timers t ts own timed h = timers-append timers t ts (ground arith) h

notify-IsKept : (input : ToastInput) (s : Alerts) → IsKept s → IsKept (notify input s).1
unfolding notify
notify-IsKept input s (short, lower, rising, timed) =
    let t : Toast = record { input = input; id = s.next_id } in
    let ts = last_three s.toasts in
    let old = below-last_three s.next_id s.toasts lower in
    (
      omega (arith, length-append_one t ts, length-last_three s.toasts),
      below-append (suc s.next_id) t ts old (omega arith),
      grows-append t ts old (grows-last_three s.toasts rising),
      timers-notify (is_timed input) _ s.timers t ts refl refl
          (timers-last_three s.timers s.toasts timed),
    )

length-keep : (p : Toast → Bool) (ts : List Toast) → length (keep p ts) ≤ length ts
length-keep p [] = omega arith
length-keep p (t ∷ ts) = ground (arith, length-keep p ts)

below-keep :
    (n : ℕ) (p : Toast → Bool) (ts : List Toast) → below n ts ≡ true → below n (keep p ts) ≡ true
below-keep n p [] h = refl
below-keep n p (t ∷ ts) h = ground (arith, below-keep n p ts)

above-keep :
    (n : ℕ) (p : Toast → Bool) (ts : List Toast) → above n ts ≡ true → above n (keep p ts) ≡ true
above-keep n p [] h = refl
above-keep n p (t ∷ ts) h = ground (arith, above-keep n p ts)

grows-keep : (p : Toast → Bool) (ts : List Toast) → grows ts ≡ true → grows (keep p ts) ≡ true
grows-keep p [] h = refl
grows-keep p (t ∷ ts) h = ground (arith, grows-keep p ts, above-keep t.id p ts)

any-keep :
    (id other : ℕ) (timers : List (ℕ × ℕ))
    → (other == id) ≡ false
    → any (λ (k : ℕ × ℕ). k.0 == other) timers ≡ true
    → any (λ (k : ℕ × ℕ). k.0 == other) (keep (λ (k : ℕ × ℕ). not (k.0 == id)) timers) ≡ true
any-keep id other [] apart h = h
any-keep id other (k ∷ timers) apart h = ground (arith, any-keep id other timers apart)

timers-keep :
    (id : ℕ) (timers : List (ℕ × ℕ)) (ts : List Toast)
    → have_timers timers ts ≡ true
    → have_timers (keep (λ (k : ℕ × ℕ). not (k.0 == id)) timers) (keep (λ t. not (t.id == id)) ts)
      ≡ true
timers-keep id timers [] h = refl
timers-keep id timers (t ∷ ts) h =
    let rest = timers-keep id timers ts (ground arith) in
    elim (Bool-cases (t.id == id)) [
      | inl gone ↦ rw gone rest
      | inr kept ↦ rw kept (ground (arith, rest, any-keep id t.id timers kept))
    ]

dismiss-IsKept : (id : ℕ) (s : Alerts) → IsKept s → IsKept (dismiss id s)
unfolding dismiss
dismiss-IsKept id s (short, lower, rising, timed) = (
  omega (arith, short, length-keep (λ t. not (t.id == id)) s.toasts),
  below-keep s.next_id (λ t. not (t.id == id)) s.toasts lower,
  grows-keep (λ t. not (t.id == id)) s.toasts rising,
  timers-keep id s.timers s.toasts timed,
)

step-IsKept : (e : Happening) (s : Alerts) → IsKept s → IsKept (step e s)
step-IsKept (notified input) s h = notify-IsKept input s h
step-IsKept (dismissed id) s h = dismiss-IsKept id s h
step-IsKept (elapsed id) s h = elim (Bool-cases (any (λ (k : ℕ × ℕ). k.0 == id) s.timers)) [
  | inl set' ↦ rw set' (dismiss-IsKept id s h)
  | inr cleared ↦ rw cleared h
]

-- From notifications of which this holds, as of none: whatever is notified, dismissed and left to its timer,
-- at most four notifications are shown, their ids are different and grow along the list, and each one that
-- was not asked to stay has a timer.
pub run-IsKept : (es : List Happening) (s : Alerts) → IsKept s → IsKept (run es s)
unfolding run
run-IsKept [] s h = h
run-IsKept (e ∷ es) s h = run-IsKept es (step e s) (step-IsKept e s h)
