-- ===== src/Web/CategoriesEditor/Examples.antt =====
-- Tests of the categories of an event.
use unity_runn.Prelude.{ℕ, none, some, [], ◌∷◌, true, str_eq, ltb, map, if◌then◌else◌, ◌≡◌, refl}
use unity_runn.Exec.{ok, err, plain}
use unity_runn.Web.Alerts.{no_alerts, notify, last_three}
use unity_runn.Web.Amounts.{Numbers, khr}
use unity_runn.Web.CategoriesEditor.{
  EventCategory, CategoriesEditor, FieldTools, open_category, empty_category_draft,
  end_add_category, end_delete_category,
}

abbrev numbers_typed : Numbers ℕ
numbers_typed = record {
  number = λ t. 0;
  parse_float = λ t. if str_eq t "40000" then 40000 else 0;
  is_finite = λ n. true;
  less = ltb;
  natural = λ n. n;
  negative = λ n. 0;
  times_hundred = λ n. n;
  round = λ n. n;
}

abbrev typing_fields : FieldTools ℕ
typing_fields = record {
  numbers = numbers_typed;
  trim = λ t. t;
  parse_int = λ t. if str_eq t "200" then 200 else 0;
  show = λ n. if ltb 1000 n then "40000" else "200";
  show_hundredths = λ n. "";
  local_time = λ t. none;
  to_iso = λ t. err (plain "Invalid time value");
}

abbrev ten_k : EventCategory ℕ
ten_k = record {
  id = "c1";
  name = "10K";
  distance = "10 km";
  price_cents = 40000;
  currency = khr;
  capacity = 200;
  registration_deadline = none;
  status = open_category;
}

abbrev five_k : EventCategory ℕ
five_k = record ten_k { id = "c2"; name = "5K" }

abbrev categories_page : CategoriesEditor ℕ
categories_page = record {
  categories = ten_k ∷ [];
  editing_id = none;
  draft = empty_category_draft;
  create_draft = empty_category_draft;
  busy_id = none;
  deleting_id = some "c1";
  alerts = no_alerts;
}

-- A category that was removed while another one was added is shown again.
overlapped-categories :
    map
      (λ (c : EventCategory ℕ). c.id)
      (end_add_category categories_page.categories
        (ok five_k)
        (end_delete_category categories_page.categories ten_k (ok tt) categories_page)).categories
    ≡ "c1" ∷ "c2" ∷ []
unfolding end_add_category end_delete_category notify last_three
overlapped-categories = refl
