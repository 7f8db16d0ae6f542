-- ===== src/Web/Entry/Ends.antt =====
-- frontend/src/pages/events/[slug]/register.tsx: what is sent to the service, and what a registration leaves.
use unity_runn.Prelude.{
  String, Option, none, some, Bool, true, false, not, ◌&&◌, truthy, str_eq, if◌then◌else◌, ◌≡◌,
  refl, ◌⊎◌, arith, inl, inr, Bool-cases,
}
use unity_runn.Exec.{Result, ok, err}
use unity_runn.Mobile.Payment.{code_of}
use unity_runn.Web.Entry.{
  FormData, Checkout, Page, is_blank, is_email, validate_form, Payload, checked_start,
  start_register, fail_with, has_code, end_register, answered, handle_register,
}

abbrev pub is_filled : FormData → Bool
is_filled f =
    (not (is_blank f.full_name) && (not (is_blank f.email) && not (is_blank f.phone)))
    && ((not (is_blank f.date_of_birth)
          && (not (is_blank f.emergency_contact_name) && not (is_blank f.emergency_contact_phone)))
        && is_email false f.email)

abbrev pub Ended : Page → Page → Type 0
Ended s t =
    (t.registering ≡ false)
    × (t.form_data ≡ s.form_data)
    × (t.selected_category ≡ s.selected_category)

-- What is left of a registration: an error, or a payment that is due, or the dashboard
abbrev pub Outcome : Page → Type 0
Outcome t =
    ((m : String) × (t.reg_error ≡ some m))
    ⊎ ((t.reg_error ≡ none)
        × (((c : Checkout) × (t.payment ≡ some c) × (str_eq c.status "PENDING" ≡ true))
            ⊎ (t.opened ≡ some "/dashboard?registration=confirmed")))

end_register-ends :
    (r : Result (Option Checkout)) (s : Page)
    → s.reg_error ≡ none
    → let t = end_register r s in Ended s t × Outcome t
unfolding end_register
end_register-ends (ok none) s fresh = ((refl, refl, refl), inr (fresh, inr refl))
end_register-ends (ok (some c)) s fresh = elim (Bool-cases (str_eq c.status "PENDING")) [
  | inl due ↦ rw due ((refl, refl, refl), inr (fresh, inl (c, refl, due)))
  | inr paid ↦ rw paid ((refl, refl, refl), inr (fresh, inr refl))
]
end_register-ends (err e) s fresh = elim (Bool-cases (has_code "capacity_full" (code_of e))) [
  | inl full ↦ rw full ((refl, refl, refl), inl (_, refl))
  | inr other ↦ rw other ((refl, refl, refl), inl (_, refl))
]

validate_form-none : (f : FormData) → validate_form f ≡ none → is_filled f ≡ true
unfolding validate_form
validate_form-none f h = ground arith

checked_start-ends :
    (service : Payload → Result (Option Checkout)) (o : Option String) (s : Page)
    → s.registering ≡ false
    → let t = answered service (checked_start o s) in Ended s t × Outcome t
checked_start-ends service (some m) s idle = ((idle, refl, refl), inl (m, refl))
checked_start-ends service none s idle =
    let p : Payload = record { event_category_id = s.selected_category; form_data = s.form_data } in
    end_register-ends (service p) (record s { reg_error = none; registering = true }) refl

chosen-ends :
    (service : Payload → Result (Option Checkout)) (b : Bool) (m : String) (o : Option String)
    (s : Page)
    → s.registering ≡ false
    → let t = answered service (if not b then (none, fail_with m s) else checked_start o s) in
      Ended s t × Outcome t
chosen-ends service true m o s idle = checked_start-ends service o s idle
chosen-ends service false m o s idle = ((idle, refl, refl), inl (m, refl))

-- A registration that begins while no other one runs ends with none running, with the form and the category as
-- they were, and with an error, or with no error and either a payment that is due or the dashboard, whatever
-- the service answers.
pub handle_register-ends :
    (service : Payload → Result (Option Checkout)) (s : Page)
    → s.registering ≡ false
    → let t = handle_register service s in Ended s t × Outcome t
unfolding handle_register start_register
handle_register-ends service s idle =
    chosen-ends service (truthy s.selected_category) "Choose an entry category to continue."
      (validate_form s.form_data) s idle

checked_start-some :
    (o : Option String) (s : Page) (p : Payload)
    → (checked_start o s).0 ≡ some p
    → (o ≡ none) × (p ≡ record { event_category_id = s.selected_category; form_data = s.form_data })
checked_start-some none s p sent = (refl, ground (arith, sent))
checked_start-some (some m) s p sent = ground (arith, sent)

guarded-some :
    (b : Bool) (o : Option String) (s t : Page) (p : Payload)
    → (if not b then (none, t) else checked_start o s).0 ≡ some p
    → (b ≡ true)
      × (o ≡ none)
      × (p ≡ record { event_category_id = s.selected_category; form_data = s.form_data })
guarded-some true o s t p sent =
    let (fine, same) = checked_start-some o s p sent in (refl, fine, same)
guarded-some false o s t p sent = ground (arith, sent)

-- What is sent to the service is the form as it stands, with a category, every required field filled in and an
-- address of the right form.
pub start_register-some :
    (s : Page) (p : Payload)
    → (start_register s).0 ≡ some p
    → (truthy s.selected_category ≡ true)
      × (p ≡ record { event_category_id = s.selected_category; form_data = s.form_data })
      × (is_filled s.form_data ≡ true)
unfolding start_register
start_register-some s p sent =
    let (chosen, fine, same) =
      guarded-some (truthy s.selected_category) (validate_form s.form_data) s _ p sent in
    (chosen, same, validate_form-none s.form_data fine)
