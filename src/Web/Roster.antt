-- ===== src/Web/Roster.antt =====
-- frontend/src/pages/admin/registrations/index.tsx: the roster of the registrations for the staff. A call is split
-- at its await; a run of an effect is known by its number, and is active while no later run has begun. `trim` and
-- the decimal text of a number are parameters; the registration that is opened is another object than the one
-- before.
pub mod Current
pub mod Pages
pub mod Reviews
mod Examples
use Prim.Native.String
use unity_runn.Prelude.{
  ℕ, suc, String, Option, none, some, List, [], ◌∷◌, ◌++◌, Bool, true, false, not, ◌&&◌, ◌||◌, ◌==◌,
  ltb, truthy, str_eq, or_else, is_some, if◌then◌else◌, map, length,
}
use unity_runn.Exec.{Failure, Result, ok, err}
use unity_runn.Mobile.Payment.{message_of}
use unity_runn.Web.Alerts.{Tone, error_tone, success_tone, warning_tone, ToastInput, Alerts, notify}

pub record Registration : Type 0 where
  pub id : String
  pub status : String

pub record Payment : Type 0 where
  pub status : String

pub record Filters : Type 0 where
  pub event_id : Option String
  pub status : Option String
  pub search : Option String

pub data ReviewDecision : Type 0 where
  approve reject : ReviewDecision

pub record Roster : Type 0 where
  pub registrations : List Registration
  pub events : List String
  pub loading : Bool
  pub selected_event_id : String
  pub selected_status : String
  pub search_query : String
  pub selected_reg : Option Registration
  pub selected_payment : Option Payment
  pub payment_loading : Bool
  pub payment_reviewing : Option ReviewDecision
  pub can_review_payments : Bool
  pub total : ℕ
  pub loading_more : Bool
  pub export_open : Bool
  pub exporting : Bool
  pub downloads : List String
  -- The numbers of the last runs of the effects that load the list and the payment
  pub list_round : ℕ
  pub payment_round : ℕ
  pub alerts : Alerts

pub record Texts : Type 0 where
  pub trim : String → String
  pub decimal : ℕ → String

pub record RegistrationPage : Type 0 where
  pub registrations : Option (List Registration)
  pub total : Option ℕ

pub record ListCall : Type 0 where
  pub filters : Filters
  pub limit : ℕ
  pub offset : ℕ

abbrev unless_all : String → Option String
unless_all value = if str_eq value "ALL" then none else some value

-- `value || undefined`
abbrev non_empty : String → Option String
non_empty value = if truthy value then some value else none

unfoldable pub filters_of : Texts → (event_id status search : String) → Filters
filters_of j event_id status search = record {
  event_id = unless_all event_id;
  status = unless_all status;
  search = non_empty (j.trim search);
}

abbrev pub active_filters : Texts → Roster → Filters
active_filters j s = filters_of j s.selected_event_id s.selected_status s.search_query

abbrev pub notice : Tone → String → String → Roster → Roster
notice tone title message s = record s {
  alerts =
      (notify (record { tone = tone; title = some title; message = message; duration = none })
        s.alerts).1;
}

unfoldable pub end_events : Result (Option (List String)) → Roster → Roster
end_events (ok found) s = record s { events = or_else found [] }
end_events (err e) s =
    notice error_tone "Events unavailable" "The event filter could not be loaded." s

-- The role of the user
unfoldable pub end_me : Result String → Roster → Roster
end_me (ok role) s = record s {
  can_review_payments = str_eq role "ADMIN" || str_eq role "SUPER_ADMIN";
}
end_me (err e) s = record s { can_review_payments = false }

abbrev is_pending : Option Registration → Option String
is_pending none = none
is_pending (some reg) = if str_eq reg.status "PENDING" then some reg.id else none

-- The effect on `selectedReg`, and the registration whose payment it asks for
unfoldable pub load_payment : Roster → Option String × Roster
load_payment s = (
  is_pending s.selected_reg,
  record s {
    payment_round = suc s.payment_round;
    selected_payment = none;
    payment_loading = if is_some (is_pending s.selected_reg) then true else s.payment_loading;
  },
)

abbrev pub select_registration : Option Registration → Roster → Option String × Roster
select_registration reg s = load_payment (record s { selected_reg = reg })

abbrev paid : Result Payment → Option Payment
paid (ok payment) = some payment
paid (err e) = none

unfoldable pub end_payment : (round : ℕ) → Result Payment → Roster → Roster
end_payment round r s =
    if round == s.payment_round
    then record s { selected_payment = paid r; payment_loading = false }
    else s

abbrev pub reviewing : ReviewDecision → Option Registration → Roster → Option String × Roster
reviewing decision none s = (none, s)
reviewing decision (some reg) s = (some reg.id, record s { payment_reviewing = some decision })

unfoldable pub start_review : ReviewDecision → Roster → Option String × Roster
start_review decision s = reviewing decision s.selected_reg s

abbrev pub replace_row : Registration → Registration → Registration
replace_row updated registration =
    if str_eq registration.id updated.id then updated else registration

abbrev reviewed_status : ReviewDecision → String
reviewed_status approve = "SUCCEEDED"
reviewed_status reject = "FAILED"

abbrev reviewed_payment : ReviewDecision → Option Payment → Option Payment
reviewed_payment decision none = none
reviewed_payment decision (some payment) =
    some (record payment { status = reviewed_status decision })

abbrev reviewed_notice : ReviewDecision → Roster → Roster
reviewed_notice approve s =
    notice success_tone "Payment approved" "The runner's ticket is now ready." s
reviewed_notice reject s =
    notice warning_tone "Payment rejected" "The runner will see that the payment failed." s

-- The registration is another object then, so that the effect on `selectedReg` runs once more.
unfoldable pub end_review : ReviewDecision → Result Registration → Roster → Option String × Roster
end_review decision (ok updated) s =
    let t = record s {
      selected_reg = some updated;
      registrations = map (replace_row updated) s.registrations;
      selected_payment = reviewed_payment decision s.selected_payment;
    } in
    load_payment (record (reviewed_notice decision t) { payment_reviewing = none })
end_review decision (err e) s = (
  none,
  record (notice error_tone "Review not saved" (message_of e "Try again.") s) {
    payment_reviewing = none;
  },
)

-- A value that is set again changes nothing.
abbrev restarted : Bool → Roster → Roster → Roster
restarted true s t = s
restarted false s t = record t { list_round = suc t.list_round }

unfoldable pub change_event : String → Roster → Roster
change_event value s =
    restarted (str_eq value s.selected_event_id) s (record s { selected_event_id = value })

unfoldable pub change_status : String → Roster → Roster
change_status value s =
    restarted (str_eq value s.selected_status) s (record s { selected_status = value })

unfoldable pub change_search : String → Roster → Roster
change_search value s =
    restarted (str_eq value s.search_query) s (record s { search_query = value })

-- The delay of the timer that loads the list
unfoldable pub list_delay : Filters → ℕ
list_delay f = if is_some f.search then 250 else 0

-- The timer of a run, which the next run clears
unfoldable pub start_list : Texts → (round : ℕ) → Roster → Option ListCall × Roster
start_list j round s =
    if round == s.list_round
    then (
      some (record { filters = active_filters j s; limit = 200; offset = 0 }),
      record s { loading = true },
    )
    else (none, s)

abbrev pub listed : Result RegistrationPage → Roster → Roster
listed (ok page) s = record s {
  registrations = or_else page.registrations [];
  total = or_else page.total 0;
  loading = false;
}
listed (err e) s =
    record (notice error_tone "Roster unavailable" (message_of e "Could not load registrations.")
      s) { loading = false }

unfoldable pub end_list : (round : ℕ) → Result RegistrationPage → Roster → Roster
end_list round r s = if round == s.list_round then listed r s else s

-- The button is shown while rows are missing, and disabled while they are loaded.
abbrev pub can_load_more : Roster → Bool
can_load_more s = ltb (length s.registrations) s.total && not s.loading && not s.loading_more

unfoldable pub start_more : Texts → Roster → Option ListCall × Roster
start_more j s =
    if can_load_more s
    then (
      some (record { filters = active_filters j s; limit = 200; offset = length s.registrations }),
      record s { loading_more = true },
    )
    else (none, s)

unfoldable pub end_more : Result RegistrationPage → Roster → Roster
end_more (ok page) s = record s {
  registrations = s.registrations ++ or_else page.registrations [];
  total = or_else page.total 0;
  loading_more = false;
}
end_more (err e) s =
    record (notice error_tone "More runners not loaded" (message_of e "Try again.") s) {
      loading_more = false;
    }

unfoldable pub review_export : Roster → Roster
review_export s =
    if ltb 0 s.total
    then record s { export_open = true }
    else notice warning_tone "Nothing to export"
        "Adjust the filters or wait for registrations before downloading a roster." s

-- The number of rows is the one of the time of the call.
unfoldable pub start_export : Texts → Roster → (Filters × ℕ) × Roster
start_export j s = ((active_filters j s, s.total), record s { exporting = true })

abbrev file_name : Option String → String
file_name none = "unity-roster.csv"
file_name (some name) = if truthy name then name else "unity-roster.csv"

abbrev exported_message : Texts → ℕ → String
exported_message j total = String.◌++◌ (j.decimal total) (
    String.◌++◌ " filtered registration"
      (String.◌++◌ (if total == 1 then "" else "s") " saved as CSV."))

-- The name that the service gave to the file
unfoldable pub end_export : Texts → (total : ℕ) → Result (Option String) → Roster → Roster
end_export j total (ok name) s =
    let t = record s { downloads = file_name name ∷ s.downloads; export_open = false } in
    record (notice success_tone "Roster exported" (exported_message j total) t) {
      exporting = false;
    }
end_export j total (err e) s =
    record (notice error_tone "Roster not exported" (message_of e "Could not download the roster.")
      s) { exporting = false }

pub data Happening : Type 0 where
  event_changed status_changed search_changed : String → Happening
  timer_ended : (round : ℕ) → Happening
  list_answered : (round : ℕ) → Result RegistrationPage → Happening
  more_asked : Happening
  more_answered : Result RegistrationPage → Happening
  selected : Option Registration → Happening
  payment_answered : (round : ℕ) → Result Payment → Happening
  review_asked : ReviewDecision → Happening
  review_answered : ReviewDecision → Result Registration → Happening

-- A happening, with the call for the list that it sends
unfoldable pub step : Texts → Happening → Roster → Option ListCall × Roster
step j (event_changed value) s = (none, change_event value s)
step j (status_changed value) s = (none, change_status value s)
step j (search_changed value) s = (none, change_search value s)
step j (timer_ended round) s = start_list j round s
step j (list_answered round r) s = (none, end_list round r s)
step j more_asked s = (none, (start_more j s).1)
step j (more_answered r) s = (none, end_more r s)
step j (selected reg) s = (none, (select_registration reg s).1)
step j (payment_answered round r) s = (none, end_payment round r s)
step j (review_asked decision) s = (none, (start_review decision s).1)
step j (review_answered decision r) s = (none, (end_review decision r s).1)

pub record SentCall : Type 0 where
  pub round : ℕ
  pub filters : Filters

abbrev pub sent_by : Option ListCall → (round : ℕ) → List SentCall → List SentCall
sent_by none round calls = calls
sent_by (some call) round calls = record { round = round; filters = call.filters } ∷ calls

-- The calls for the list that were sent, each with the number of its run
unfoldable pub run : Texts → List Happening → List SentCall × Roster → List SentCall × Roster
run j [] (calls, s) = (calls, s)
run j (h ∷ hs) (calls, s) =
    let next = step j h s in run j hs (sent_by next.0 s.list_round calls, next.1)
