-- ===== src/Web/RunnerProfile/Saving.antt =====
-- frontend/src/pages/profile.tsx: saving the details of a runner.
use unity_runn.Prelude.{
  String, Option, none, some, Bool, true, false, not, truthy, eq_refl, if◌then◌else◌, ◌≡◌, refl,
  arith,
}
use unity_runn.Exec.{Result, ok, err}
use unity_runn.Mobile.Payment.{message_of}
use unity_runn.Web.RunnerProfile.{
  same_form, ProfileForm, RunnerProfile, ProfilePage, form_from_profile, payload_of, start_save,
  is_dirty, end_save,
}

-- `saveProfile`, with the answer of the service
abbrev pub answer_save : Option RunnerProfile × ProfilePage → Result RunnerProfile → ProfilePage
answer_save (none, s) r = s
answer_save (some payload, s) r = end_save r s

unfoldable pub save_profile : (String → String) → Result RunnerProfile → ProfilePage → ProfilePage
save_profile trim r s = answer_save (start_save trim s) r

abbrev pub Saved : Result RunnerProfile → (s t : ProfilePage) → Type 0
Saved (ok profile) s t =
    (t.form ≡ form_from_profile (some profile)) × (is_dirty t ≡ false) × (t.error ≡ none)
Saved (err e) s t =
    (t.form ≡ s.form)
    × (t.saved_form ≡ s.saved_form)
    × (t.error ≡ some (message_of e "Could not save your runner details."))

abbrev pub Settled : Bool → Result RunnerProfile → (s t : ProfilePage) → Type 0
Settled false r s t =
    (t.form ≡ s.form)
    × (t.saved_form ≡ s.saved_form)
    × (t.error ≡ some "Add the full name that should appear on your race entries.")
Settled true r s t = Saved r s t × (t.saving ≡ false)

unchanged : (f : ProfileForm) → not (same_form f f) ≡ false
unchanged f = ground (
  arith,
  eq_refl f.full_name,
  eq_refl f.phone,
  eq_refl f.date_of_birth,
  eq_refl f.gender,
  eq_refl f.emergency_contact_name,
  eq_refl f.emergency_contact_phone,
  eq_refl f.tshirt_size,
)

answered-Settled :
    (trim : String → String) (b : Bool) (r : Result RunnerProfile) (s : ProfilePage)
    → let sent : Option RunnerProfile × ProfilePage =
        if b then (some (payload_of trim s.form), record s { saving = true; error = none }) else (
          none,
          record s { error = some "Add the full name that should appear on your race entries." },
        ) in
      Settled b r s (answer_save sent r)
unfolding end_save
answered-Settled trim false r s = (refl, refl, refl)
answered-Settled trim true (ok profile) s =
    ((refl, unchanged (form_from_profile (some profile)), refl), refl)
answered-Settled trim true (err e) s = ((refl, refl, refl), refl)

-- How a save of the details ends: without a name nothing is sent, the details that are typed stay and the page asks
-- for the name; when the service answers with the details, these are the ones in the form, nothing is left to be
-- saved and no error is shown; when it answers with an error, the details that are typed stay and the error is shown.
pub save_profile-ends :
    (trim : String → String) (r : Result RunnerProfile) (s : ProfilePage)
    → Settled (truthy (trim s.form.full_name)) r s (save_profile trim r s)
unfolding save_profile start_save
save_profile-ends trim r s = answered-Settled trim (truthy (trim s.form.full_name)) r s
