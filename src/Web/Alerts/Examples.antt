-- ===== src/Web/Alerts/Examples.antt =====
-- Tests of the notifications.
use unity_runn.Prelude.{none, some, [], ◌∷◌, ◌≡◌, refl, map}
use unity_runn.Web.Alerts.{
  ToastInput, Toast, info_tone, no_alerts, last_three, notify, dismiss, notified, elapsed, run,
}

abbrev note : ToastInput
note = record { tone = info_tone; title = none; message = "Saved"; duration = none }

abbrev sticky : ToastInput
sticky = record { tone = info_tone; title = none; message = "Read this"; duration = some 0 }

-- The fifth notification takes the place of the first.
shown-five :
    map
      (λ (t : Toast). t.id)
      (run
        (notified note
          ∷ notified sticky
          ∷ notified note
          ∷ notified note
          ∷ notified note
          ∷ elapsed 3
          ∷ [])
        no_alerts).toasts
    ≡ 2 ∷ 4 ∷ 5 ∷ []
unfolding run notify dismiss last_three
shown-five = refl
