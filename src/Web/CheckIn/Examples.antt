-- ===== src/Web/CheckIn/Examples.antt =====
-- Tests of the check-in station on a station with two registrations.
use unity_runn.Prelude.{String, none, some, [], ◌∷◌, true, false, ◌≡◌, refl, map}
use unity_runn.Exec.{plain, Result, err}
use unity_runn.Web.CheckIn.{
  or_get, Registration, Texts, Station, RecentCheckin, take, insert, sort, recent_for_event, get,
  registration_index, resolve_scan_target,
}
use unity_runn.Web.CheckIn.Scans.{CheckInCall}
use unity_runn.Web.CheckIn.Index.{last_match, resolve_scan_target-last_match}
use unity_runn.Web.CheckIn.Counts.{checked_in_count, confirmed_count, remaining_count}

abbrev texts : Texts
texts = record { trim = λ t. t; lower = λ t. t; ordered = λ a b. true; time_of = λ t. t }

abbrev runner : Registration
runner = record {
  id = "r1";
  event_id = "e1";
  registration_number = "n1";
  email = "a@b.c";
  full_name = "A";
  tshirt_size = "M";
  status = "CONFIRMED";
  checked_in_at = none;
}

abbrev other_runner : Registration
other_runner = record runner {
  id = "r2";
  registration_number = "n2";
  email = "d@e.f";
  checked_in_at = some "8";
}

abbrev gate : Station
gate = record {
  events = [];
  selected_event_id = "e1";
  registrations = runner ∷ other_runner ∷ [];
  manual_token = "";
  loading = false;
  station_error = none;
  processing = false;
  last_result = none;
  recent_checkins = [];
}

resolve-number :
    resolve_scan_target texts (registration_index texts gate.registrations "e1") "n1" ≡ some runner
unfolding resolve_scan_target registration_index get
resolve-number = refl

counts : (confirmed_count gate ≡ 2) × (checked_in_count gate ≡ 1) × (remaining_count gate ≡ 1)
unfolding confirmed_count checked_in_count remaining_count
counts = (refl, refl, refl)

recent-gate :
    map (λ (c : RecentCheckin). c.number) (recent_for_event texts gate.registrations "e1")
    ≡ "n2" ∷ []
unfolding recent_for_event sort insert take
recent-gate = refl

resolve_scan_target-last_match_example :
    resolve_scan_target texts (registration_index texts gate.registrations "e1") "n1"
    ≡ or_get
        (last_match texts "e1" "n1" gate.registrations)
        (last_match texts "e1" "n1" gate.registrations)
resolve_scan_target-last_match_example =
    resolve_scan_target-last_match texts gate.registrations "e1" "n1"

abbrev refusing : CheckInCall → Result (Registration × String)
refusing call = err (plain "Unknown ticket.")
