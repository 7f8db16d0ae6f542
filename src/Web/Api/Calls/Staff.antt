-- ===== src/Web/Api/Calls/Staff.antt =====
-- frontend/src/lib/api.ts: the requests of the staff, for the parts of an event's page and for the club.
use Prim.Native.String.{len}
use Prim.Native.String
use unity_runn.Prelude.{ℕ, String, Option, none, some, [], ◌∷◌, ◌==◌, truthy, if◌then◌else◌}
use unity_runn.Web.Api.Calls.{
  Value, text, number, missing, Fields, Encoding, Request, getting, deleting, asking, posting,
  patching,
}

-- The parts of an event's page: categories, questions, rules and messages, by the name in the path.
pub data Part : Type 0 where
  categories faqs rules automations : Part

abbrev pub part_text : Part → String
part_text categories = "/categories/"
part_text faqs = "/faqs/"
part_text rules = "/rules/"
part_text automations = "/automations/"

-- An item of the schedule; an update may leave out each field.
pub record ScheduleItem : Type 0 where
  pub time : Option String
  pub title : Option String
  pub description : Option String
  pub sort_order : Option ℕ

-- `09:30` becomes `09:30:00`.
unfoldable pub with_seconds : String → String
with_seconds time = if len time == 5 then String.◌++◌ time ":00" else time

abbrev text_field : Option String → Value
text_field none = missing
text_field (some s) = text s

abbrev number_field : Option ℕ → Value
number_field none = missing
number_field (some n) = number n

abbrev time_field : Option String → Value
time_field none = missing
time_field (some time) = text (with_seconds time)

abbrev pub schedule_fields : ScheduleItem → Fields
schedule_fields item =
    ("time", time_field item.time)
    ∷ ("title", text_field item.title)
    ∷ ("description", text_field item.description)
    ∷ ("sort_order", number_field item.sort_order)
    ∷ []

pub data ProgrammeCall : Type 0 where
  create_item : Part → (event : String) → (json : String) → ProgrammeCall
  update_item : Part → (event : String) → (item : String) → (json : String) → ProgrammeCall
  delete_item : Part → (event : String) → (item : String) → ProgrammeCall
  create_schedule_item : (event : String) → ScheduleItem → ProgrammeCall
  update_schedule_item : (event : String) → (item : String) → ScheduleItem → ProgrammeCall
  delete_schedule_item : (event : String) → (item : String) → ProgrammeCall
  list_event_automations : (event : String) → ProgrammeCall

unfoldable pub programme_call : Encoding → ProgrammeCall → Request
programme_call e (create_item part event json) =
    posting ("events/" ∷ event ∷ part_text part ∷ []) json
programme_call e (update_item part event item json) =
    patching ("events/" ∷ event ∷ part_text part ∷ item ∷ []) json
programme_call e (delete_item part event item) =
    deleting ("events/" ∷ event ∷ part_text part ∷ item ∷ [])
programme_call e (create_schedule_item event item) =
    posting ("events/" ∷ event ∷ "/schedules/" ∷ []) (e.stringify (schedule_fields item))
programme_call e (update_schedule_item event id item) =
    patching ("events/" ∷ event ∷ "/schedules/" ∷ id ∷ []) (e.stringify (schedule_fields item))
programme_call e (delete_schedule_item event id) =
    deleting ("events/" ∷ event ∷ "/schedules/" ∷ id ∷ [])
programme_call e (list_event_automations event) = getting ("events/" ∷ event ∷ "/automations/" ∷ [])

pub data AdminCall : Type 0 where
  check_in : (event : Option String) → (qr_token : String) → AdminCall
  get_metrics get_system_status get_automations : AdminCall
  retry_automation_delivery get_registration : String → AdminCall
  update_user_role : (user : String) → (role : String) → AdminCall
  restore_site_config_version : ℕ → AdminCall

-- `data.eventId || undefined`
abbrev nonempty_field : Option String → Value
nonempty_field none = missing
nonempty_field (some s) = if truthy s then text s else missing

unfoldable pub admin_call : Encoding → AdminCall → Request
admin_call e (check_in event token) =
    posting ("check-in" ∷ [])
      (e.stringify (("token", text token) ∷ ("event_id", nonempty_field event) ∷ []))
admin_call e get_metrics = getting ("admin/stats" ∷ [])
admin_call e get_system_status = getting ("admin/system" ∷ [])
admin_call e get_automations = getting ("admin/automations" ∷ [])
admin_call e (retry_automation_delivery id) =
    asking ("admin/automations/deliveries/" ∷ id ∷ "/retry" ∷ [])
admin_call e (get_registration id) = getting ("admin/registrations/" ∷ id ∷ [])
admin_call e (update_user_role user role) =
    patching ("admin/users/" ∷ user ∷ "/role" ∷ []) (e.stringify (("role", text role) ∷ []))
admin_call e (restore_site_config_version version) =
    asking ("admin/site-config/versions/" ∷ e.decimal version ∷ "/restore" ∷ [])
