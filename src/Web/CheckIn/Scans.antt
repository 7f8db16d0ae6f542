-- ===== src/Web/CheckIn/Scans.antt =====
-- frontend/src/pages/admin/checkin/index.tsx: loading the station, choosing an event and processing a scan.
-- `start_scan` is the handler up to its await, `scan_accepted` and `scan_refused` follow the answer.
use Prim.Native.String.{slice}
use unity_runn.Prelude.{
  String, Option, none, some, List, [], ◌∷◌, Bool, true, false, not, ◌||◌, truthy, str_eq,
  if◌then◌else◌, keep, map, any,
}
use unity_runn.Exec.{Failure, api, Result, ok, err}
use unity_runn.Mobile.Payment.{message_of}
use unity_runn.Web.CheckIn.{
  Registration, RaceEvent, success, already_checked_in, failed, Texts, Station, take,
  recent_for_event, registration_index, resolve_scan_target,
}

abbrev pub is_open : RaceEvent → Bool
is_open e =
    any (λ status. str_eq status e.status)
      ("PUBLISHED" ∷ "REGISTRATION_OPEN" ∷ "REGISTRATION_CLOSED" ∷ [])

abbrev pub first_id : List RaceEvent → String
first_id [] = ""
first_id (e ∷ es) = e.id

unfoldable pub start_load : Station → Station
start_load s = record s { loading = true; station_error = none }

unfoldable pub end_load : Texts → Result (List RaceEvent × List Registration) → Station → Station
end_load j (err e) s = record s {
  station_error = some (message_of e "The check-in station could not load.");
  loading = false;
}
end_load j (ok (events, registrations)) s =
    let listed = keep is_open events in
    let initial = first_id listed in
    record s {
      events = listed;
      registrations = registrations;
      selected_event_id = initial;
      recent_checkins = if truthy initial then recent_for_event j registrations initial else [];
      loading = false;
    }

unfoldable pub select_event : Texts → String → Station → Station
select_event j id s = record s {
  selected_event_id = id;
  recent_checkins = recent_for_event j s.registrations id;
  last_result = none;
}

pub record CheckInCall : Type 0 where
  pub event_id : String
  pub qr_token : String

-- `match?.registration_number || raw`
abbrev pub token_of : Option Registration → String → String
token_of none raw = raw
token_of (some r) raw = if truthy r.registration_number then r.registration_number else raw

abbrev pub found : Texts → Station → String → Option Registration
found j s raw = resolve_scan_target j (registration_index j s.registrations s.selected_event_id) raw

abbrev pub call_for : Texts → String → Station → CheckInCall
call_for j raw s = record {
  event_id = s.selected_event_id;
  qr_token = token_of (found j s raw) raw;
}

unfoldable pub start_scan : Texts → String → Station → Option CheckInCall × Station
start_scan j token s =
    let raw = j.trim token in
    if not (truthy raw) || s.processing
    then (none, s)
    else if not (truthy s.selected_event_id)
    then (
      none,
      record s {
        last_result = some record {
          status = failed;
          message = "Select an event before scanning.";
          registration = none;
        };
      },
    )
    else (some (call_for j raw s), record s { processing = true; manual_token = "" })

abbrev or_word : String → String → String
or_word t d = if truthy t then t else d

abbrev pub check_in : String → String → Registration → Registration
check_in id at r = if str_eq r.id id then record r { checked_in_at = some at } else r

-- The registration and the time of the answer, and the text of the present time
unfoldable pub scan_accepted : Registration → (at now : String) → Station → Station
scan_accepted r at now s = record s {
  registrations = map (check_in r.id at) s.registrations;
  last_result = some record {
    status = success;
    message = "Ticket verified. Hand over the runner kit and admit entry.";
    registration = some r;
  };
  recent_checkins =
      record {
        name = or_word r.full_name "Runner";
        number = or_word r.registration_number (slice r.id 0 8);
        tshirt = or_word r.tshirt_size "M";
        time = now;
      }
      ∷ take 14 s.recent_checkins;
  processing = false;
}

-- What is read of the value that is thrown
abbrev pub code_of : Failure → String
code_of (api e) = e.code
code_of _ = ""

abbrev pub thrown_message : Failure → String
thrown_message e = message_of e ""

abbrev pub is_already : (includes_already : String → Bool) → Failure → Bool
is_already includes_already e =
    includes_already (thrown_message e) || str_eq (code_of e) "already_checked_in"

abbrev failure_text : Failure → String
failure_text e =
    if str_eq (code_of e) "wrong_event"
    then "This ticket belongs to another event. Switch the gate assignment before scanning it."
    else or_word (thrown_message e) "The ticket code could not be verified."

unfoldable pub scan_refused :
    (includes_already : String → Bool) → Option Registration → Failure → Station → Station
scan_refused includes_already match e s =
    let result =
      if is_already includes_already e
      then record {
        status = already_checked_in;
        message = "This runner was admitted earlier. Do not issue another kit.";
        registration = match;
      }
      else record { status = failed; message = failure_text e; registration = none } in
    record s { last_result = some result; processing = false }

pub data Scanning : Type 0 where
  loading_started : Scanning
  loading_ended : Result (List RaceEvent × List Registration) → Scanning
  event_selected : String → Scanning
  token_typed : String → Scanning
  scanned : String → Scanning
  accepted : Registration → String → String → Scanning
  refused : Option Registration → Failure → Scanning

module _ (j : Texts) (includes_already : String → Bool) where
  abbrev pub step : Scanning → Station → Station
  step loading_started s = start_load s
  step (loading_ended r) s = end_load j r s
  step (event_selected id) s = select_event j id s
  step (token_typed t) s = record s { manual_token = t }
  step (scanned t) s = (start_scan j t s).1
  step (accepted r at now) s = scan_accepted r at now s
  step (refused match e) s = scan_refused includes_already match e s

  unfoldable pub run : List Scanning → Station → Station
  run [] s = s
  run (e ∷ es) s = run es (step e s)

-- The whole handler, for a service that answers a call with a registration and the time of its check-in
module _ (j : Texts) (includes_already : String → Bool)
    (service : CheckInCall → Result (Registration × String)) (now : String) where
  abbrev pub answer : Result (Registration × String) → Option Registration → Station → Station
  answer (ok (r, at)) match s = scan_accepted r at now s
  answer (err e) match s = scan_refused includes_already match e s

  abbrev processed : Option CheckInCall × Station → Option Registration → Station
  processed (none, s) match = s
  processed (some call, s) match = answer (service call) match s

  unfoldable pub process_scan : String → Station → Station
  process_scan token s = processed (start_scan j token s) (found j s (j.trim token))
