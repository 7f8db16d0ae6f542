-- ===== src/Web/Entry/Examples.antt =====
-- Tests of the registration page on a form that is filled in.
use unity_runn.Prelude.{ℕ, none, some, List, [], ◌∷◌, false, ◌≡◌, refl}
use unity_runn.Web.Slug.{drop_start, drop_end, is_space}
use unity_runn.Web.Entry.{
  FormData, Page, Payload, prefill, has_dot, is_email, is_blank, validate_form, start_register,
}

-- "a@b.c"
abbrev address : List ℕ
address = 97 ∷ 64 ∷ 98 ∷ 46 ∷ 99 ∷ []

abbrev letter : List ℕ
letter = 97 ∷ []

abbrev filled : FormData
filled = record {
  full_name = letter;
  email = address;
  phone = letter;
  gender = letter;
  date_of_birth = letter;
  emergency_contact_name = letter;
  emergency_contact_phone = letter;
  tshirt_size = letter;
}

abbrev entering : Page
entering = record {
  form_data = filled;
  selected_category = "c1";
  registering = false;
  reg_error = none;
  payment = none;
  opened = none;
  refreshes = 0;
}

abbrev sent : Payload
sent = record { event_category_id = "c1"; form_data = filled }

-- "a@b." has nothing behind its dot.
email-short : is_email false (97 ∷ 64 ∷ 98 ∷ 46 ∷ []) ≡ false
unfolding is_email has_dot is_space
email-short = refl

-- What is typed stays, but for the gender and the size of the shirt.
prefill-typed :
    prefill
      (λ t. t)
      (record { name = address; email = letter; profile = record filled { gender = address } })
      filled
    ≡ record filled { gender = address }
unfolding prefill
prefill-typed = refl

sent-filled : (start_register entering).0 ≡ some sent
unfolding start_register validate_form is_blank drop_start drop_end is_space is_email has_dot
sent-filled = refl
