-- ===== src/Web/Alerts.antt =====
-- frontend/src/components/alerts/AlertSystem.tsx: the notifications of the web site. A timer of the browser is
-- kept with its delay.
pub mod Toasts
mod Examples
use unity_runn.Prelude.{
  ℕ, suc, ◌+◌, String, Option, none, some, List, [], ◌∷◌, ◌++◌, Bool, true, false, not, ◌&&◌, ◌||◌,
  ◌==◌, ltb, or_else, any, keep, if◌then◌else◌,
}

pub data Tone : Type 0 where
  info_tone success_tone warning_tone error_tone : Tone

pub record ToastInput : Type 0 where
  pub tone : Tone
  pub title : Option String
  pub message : String
  pub duration : Option ℕ

pub record Toast : Type 0 where
  pub input : ToastInput
  pub id : ℕ

pub record Alerts : Type 0 where
  pub toasts : List Toast
  pub next_id : ℕ
  pub timers : List (ℕ × ℕ)

abbrev pub no_alerts : Alerts
no_alerts = record { toasts = []; next_id = 1; timers = [] }

-- `current.slice(-3)`
unfoldable pub last_three : List Toast → List Toast
last_three (a ∷ b ∷ c ∷ d ∷ s) = last_three (b ∷ c ∷ d ∷ s)
last_three s = s

abbrev pub is_timed : ToastInput → Bool
is_timed input = not (or_else input.duration 4500 == 0)

unfoldable pub notify : ToastInput → Alerts → ℕ × Alerts
notify input s =
    let id = s.next_id in
    (
      id,
      record {
        toasts = last_three s.toasts ++ (record { input = input; id = id } ∷ []);
        next_id = suc id;
        timers = if is_timed input then (id, or_else input.duration 4500) ∷ s.timers else s.timers;
      },
    )

unfoldable pub dismiss : ℕ → Alerts → Alerts
dismiss id s = record s {
  toasts = keep (λ t. not (t.id == id)) s.toasts;
  timers = keep (λ (k : ℕ × ℕ). not (k.0 == id)) s.timers;
}

-- A notification, one that is dismissed by hand, and one whose timer ends
pub data Happening : Type 0 where
  notified : ToastInput → Happening
  dismissed : ℕ → Happening
  elapsed : ℕ → Happening

abbrev pub step : Happening → Alerts → Alerts
step (notified input) s = (notify input s).1
step (dismissed id) s = dismiss id s
step (elapsed id) s = if any (λ (k : ℕ × ℕ). k.0 == id) s.timers then dismiss id s else s

unfoldable pub run : List Happening → Alerts → Alerts
run [] s = s
run (e ∷ es) s = run es (step e s)
