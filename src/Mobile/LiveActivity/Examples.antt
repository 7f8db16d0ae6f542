-- ===== src/Mobile/LiveActivity/Examples.antt =====
-- The theorems of the live activities at concrete inputs.
use unity_runn.Prelude.{String, ◌≡◌, refl, Option, none, some, [], ◌∷◌, true, arith, eq_refl}
use unity_runn.Exec.{ok}
use unity_runn.Mobile.LiveActivity.Content.{
  StartInput, UpdateInput, Props, initial_content, updated_content, parse_saved_content,
}
use unity_runn.Mobile.LiveActivity.Content.Laws.{IsTimed}
use unity_runn.Mobile.LiveActivity.Bridge.{
  Kit, put, launch, update_activity, previous_content, find_instance, show_merged, update_found,
}
use unity_runn.Mobile.LiveActivity.Bridge.Laws.{IsLawful}
use unity_runn.Mobile.LiveActivity.Bridge.Sync.{
  InSync, start, update, end, bridge_run, bridge_run-InSync,
}
use unity_runn.Mobile.LiveActivity.Content.RaceState.{live, upcoming}

abbrev race : StartInput
race = record {
  event_name = "Angkor";
  location = "Siem Reap";
  race_distance = some "21K";
  start_time = "06:00";
  bib_number = none;
  gate = none;
  elapsed_seconds = some 2;
  distance_km = none;
  pace = none;
  finish_time = none;
  status = upcoming;
}

abbrev patch : UpdateInput
patch = record {
  race_status = some live;
  distance_km = some 1;
  elapsed_seconds = none;
  pace = none;
  finish_time = none;
}

-- A phone that runs one activity at most under the id "a", with a store that holds one content.
abbrev Phone : Type 0
Phone = (String → Option Props) × (String → Option String)

abbrev content : Props
content = initial_content race 5000

abbrev phone : Kit Phone
phone = record {
  shows = λ s. s.0;
  holds = λ s. s.1;
  start = λ p s. (ok "a", (put "a" (some p) s.0, s.1));
  list = λ s. ok ("a" ∷ []);
  update = λ id p s. (ok tt, (put id (some p) s.0, s.1));
  end = λ id s. (ok tt, (put id none s.0, s.1));
  push_token = λ id s. ("token", s);
  token = λ id s. ok none;
  write = λ id t s. (ok tt, (s.0, put id (some t) s.1));
  read = λ id s. ok (s.1 id);
  delete = λ id s. (ok tt, (s.0, put id none s.1));
  now = λ s. 9000;
  format = record { stringify = λ p. "saved"; parse = λ t. some content };
}

abbrev put_at {ℓ} :
    {A : Type ℓ} (v : A) (f : String → A) (i j : String)
    → i ≡ j
    → (x : String) → put i v f x ≡ put j v f x
put_at v f i j e x = rw e refl

phone-IsLawful : IsLawful phone
phone-IsLawful = record {
  start_shows = λ p s id j e. put_at (some p) s.0 "a" id (ground arith) j;
  update_shows = λ id p s j e. refl;
  update_fails = λ id p s j e h. ground arith;
  update_holds = λ id p s j. refl;
  end_shows = λ id s j e. refl;
  end_other = λ id s j e. rw e refl;
  start_fails = λ p s j e h. ground arith;
  write_shows = λ id t s j. refl;
  write_holds = λ id t s e. ground (arith, eq_refl id);
  delete_shows = λ id s j. refl;
  push_token_shows = λ id s j. refl;
  read_holds = λ id s t h. ground arith;
}

abbrev saved : Phone
saved = ((λ id. none), put "a" (some "saved") (λ id. none))

updates : (update_activity phone "a" patch (launch phone saved)).0 ≡ ok tt
unfolding update_activity update_found find_instance launch previous_content parse_saved_content
    show_merged updated_content
updates = refl

content-IsTimed : IsTimed content
unfolding initial_content
content-IsTimed = refl

launch-InSync : InSync phone (launch phone saved)
unfolding launch
launch-InSync id = tt

bridge_run-InSync_example :
    InSync phone
      (bridge_run phone (start race ∷ update "a" patch ∷ end "a" ∷ []) (launch phone saved))
bridge_run-InSync_example =
    bridge_run-InSync phone phone-IsLawful (start race ∷ update "a" patch ∷ end "a" ∷ [])
      (launch phone saved) launch-InSync

finds : (find_instance phone "a" (launch phone saved)).0 ≡ ok true
unfolding find_instance launch
finds = refl
