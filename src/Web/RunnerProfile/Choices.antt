-- ===== src/Web/RunnerProfile/Choices.antt =====
-- frontend/src/pages/profile.tsx: the choices of messages that the page shows, and those that the service keeps.
use mathlib.Core.Path.{subst}
use unity_runn.Prelude.{
  Option, none, some, List, [], ◌∷◌, Bool, true, false, is_some, Bool-cases, inl, inr, ◌≡◌, refl,
  sym, ap, ◌∙◌, arith,
}
use unity_runn.Exec.{Failure, ok, err}
use unity_runn.Web.RunnerProfile.{
  Preferences, PreferenceKey, TelegramStatus, ProfilePage, PreferenceCall, with_preferences,
  preferring, start_preference, end_preference,
}

-- The page, the change that waits for its answer, and the choices that the service keeps
pub record Delivery : Type 0 where
  pub page : ProfilePage
  pub waiting : Option PreferenceCall
  pub kept : Preferences

-- A switch is pressed, or the change that waits is accepted or refused.
pub data Turn : Type 0 where
  switched : PreferenceKey → Turn
  accepted : Turn
  refused : Failure → Turn

abbrev taken : Option PreferenceCall × ProfilePage → Delivery → Delivery
taken (none, s) w = record w { page = s }
taken (some call, s) w = record w { page = s; waiting = some call }

-- The service answers a change that it accepts with the choices that it keeps from then on.
abbrev status_with : Preferences → TelegramStatus
status_with p = record { available = true; connected = true; bot_name = none; preferences = p }

abbrev accepting : Option PreferenceCall → Delivery → Delivery
accepting none w = w
accepting (some call) w = record {
  page = end_preference call (ok (status_with call.next)) w.page;
  waiting = none;
  kept = call.next;
}

abbrev refusing : Failure → Option PreferenceCall → Delivery → Delivery
refusing e none w = w
refusing e (some call) w = record w { page = end_preference call (err e) w.page; waiting = none }

unfoldable pub turn : Turn → Delivery → Delivery
turn (switched key) w = taken (start_preference key w.page) w
turn accepted w = accepting w.waiting w
turn (refused e) w = refusing e w.waiting w

unfoldable pub run : List Turn → Delivery → Delivery
run [] w = w
run (t ∷ ts) w = run ts (turn t w)

abbrev pub shown : Option TelegramStatus → Option Preferences
shown none = none
shown (some t) = some t.preferences

abbrev pub Agrees : Option PreferenceCall → ProfilePage → Preferences → Type 0
Agrees none s kept = (shown s.telegram ≡ some kept) × (is_some s.telegram_preference_busy ≡ false)
Agrees (some call) s kept =
    (shown s.telegram ≡ some call.next)
    × (is_some s.telegram_preference_busy ≡ true)
    × (call.previous ≡ kept)

-- While no change waits, the page shows the choices that the service keeps; while one waits, it shows the new ones
-- and remembers the ones that are kept.
abbrev pub IsInStep : Delivery → Type 0
IsInStep w = Agrees w.waiting w.page w.kept

abbrev some_or : Preferences → Option Preferences → Preferences
some_or d none = d
some_or d (some p) = p

preferring-Agrees :
    (key : PreferenceKey) (o : Option TelegramStatus) (busy : Bool)
    (waiting : Option PreferenceCall) (w : Delivery)
    → shown w.page.telegram ≡ shown o
    → is_some w.page.telegram_preference_busy ≡ busy
    → w.waiting ≡ waiting
    → Agrees waiting w.page w.kept
    → IsInStep (taken (preferring key o busy w.page) w)
preferring-Agrees key none busy waiting w seen idle same h =
    subst (λ x. Agrees x w.page w.kept) (sym same) h
preferring-Agrees key (some t) true waiting w seen idle same h = elim (Bool-cases t.connected) [
  | inl c ↦ rw c (subst (λ x. Agrees x w.page w.kept) (sym same) h)
  | inr c ↦ rw c (subst (λ x. Agrees x w.page w.kept) (sym same) h)
]
preferring-Agrees key (some t) false (some call) w seen idle same h = ground (arith, h.1, idle)
preferring-Agrees key (some t) false none w seen idle same (agrees, free) =
    elim (Bool-cases t.connected) [
      | inl c ↦ rw c (refl, refl, ap (some_or w.kept) (sym seen ∙ agrees))
      | inr c ↦ rw c (subst (λ x. Agrees x w.page w.kept) (sym same) (agrees, free))
    ]

accepting-Agrees :
    (waiting : Option PreferenceCall) (w : Delivery)
    → w.waiting ≡ waiting
    → Agrees waiting w.page w.kept
    → IsInStep (accepting waiting w)
unfolding end_preference
accepting-Agrees none w same h = subst (λ x. Agrees x w.page w.kept) (sym same) h
accepting-Agrees (some call) w same h = (refl, refl)

shown-with_preferences :
    (o : Option TelegramStatus) (p q : Preferences)
    → shown o ≡ some q
    → shown (with_preferences p o) ≡ some p
shown-with_preferences none p q h = ground (arith, h)
shown-with_preferences (some t) p q h = refl

refusing-Agrees :
    (e : Failure) (waiting : Option PreferenceCall) (w : Delivery)
    → w.waiting ≡ waiting
    → Agrees waiting w.page w.kept
    → IsInStep (refusing e waiting w)
unfolding end_preference
refusing-Agrees e none w same h = subst (λ x. Agrees x w.page w.kept) (sym same) h
refusing-Agrees e (some call) w same (seen, busy, previous) =
    (shown-with_preferences w.page.telegram call.previous call.next seen ∙ ap some previous, refl)

turn-IsInStep : (t : Turn) (w : Delivery) → IsInStep w → IsInStep (turn t w)
unfolding turn start_preference
turn-IsInStep (switched key) w h =
    preferring-Agrees key w.page.telegram (is_some w.page.telegram_preference_busy) w.waiting w refl
      refl refl h
turn-IsInStep accepted w h = accepting-Agrees w.waiting w refl h
turn-IsInStep (refused e) w h = refusing-Agrees e w.waiting w refl h

-- Where the page shows the choices of messages that the service keeps and no change waits for its answer, this stays
-- so whatever switches are pressed and whatever the service accepts or refuses: whenever no change waits, the page
-- shows what the service keeps, also after a change that was refused, and while one waits the page shows it, is busy,
-- and remembers what the service keeps.
pub run-IsInStep : (ts : List Turn) (w : Delivery) → IsInStep w → IsInStep (run ts w)
unfolding run
run-IsInStep [] w h = h
run-IsInStep (t ∷ ts) w h = run-IsInStep ts (turn t w) (turn-IsInStep t w h)
