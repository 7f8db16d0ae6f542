-- ===== src/Web/Api/Calls/Routes.antt =====
-- What all requests of the signed-in site have in common.
use Prim.Native.String.{len}
use text.Mathlib.Text.{starts_with}
use text.Mathlib.TextPositions.{starts_with-append, len-append}
use unity_runn.Prelude.{
  String, ◌≡◌, refl, arith, Bool, true, false, ◌==◌, if◌then◌else◌, is_some, or_else, Bool-cases,
  inl, inr,
}
use unity_runn.Web.Api.{Method, get, post, patch, delete}
use unity_runn.Web.Api.Calls.{
  Encoding, Request, root, AccountCall, account_call, EventCall, event_call, RegistrationCall,
  registration_call, get_me, get_event, get_event_by_id, delete_event, create_event,
  get_category_availability, update_event, duplicate_event, issue_ticket_token, get_registration,
  get_registration_payment, verify_registration_payment, cancel_registration, register_for_event,
  submit_registration_payment, admin_review_payment,
}
use unity_runn.Web.Api.Calls.Staff.{
  ProgrammeCall, programme_call, AdminCall, admin_call, with_seconds, create_item, update_item,
  delete_item, create_schedule_item, update_schedule_item, delete_schedule_item,
  list_event_automations, check_in, get_metrics, get_system_status, get_automations,
  retry_automation_delivery, update_user_role, restore_site_config_version,
}

pub data ApiCall : Type 0 where
  account : AccountCall → ApiCall
  event : EventCall → ApiCall
  registration : RegistrationCall → ApiCall
  programme : ProgrammeCall → ApiCall
  admin : AdminCall → ApiCall

unfoldable pub request_of : Encoding → ApiCall → Request
request_of e (account c) = account_call c
request_of e (event c) = event_call e c
request_of e (registration c) = registration_call e c
request_of e (programme c) = programme_call e c
request_of e (admin c) = admin_call e c

-- Whether `fetch` takes the method with or without a body
abbrev pub fits : Method → Bool → Bool
fits get has = if has then false else true
fits delete has = if has then false else true
fits post has = true
fits patch has = has

pub record IsSendable (r : Request) : Type 0 where
  pub in_api : starts_with r.path root ≡ true
  pub body : fits (or_else r.options.method get) (is_some r.options.body) ≡ true
  pub may_refresh : r.options.skip_auth_retry ≡ false

account_call-IsSendable : (c : AccountCall) → IsSendable (account_call c)
unfolding account_call
account_call-IsSendable (get_me b) = record { in_api = refl; body = refl; may_refresh = refl }
account_call-IsSendable _ = record { in_api = refl; body = refl; may_refresh = refl }

event_call-IsSendable : (e : Encoding) (c : EventCall) → IsSendable (event_call e c)
unfolding event_call
event_call-IsSendable e (get_event s) = record {
  in_api = starts_with-append root _;
  body = refl;
  may_refresh = refl;
}
event_call-IsSendable e (get_event_by_id i) = record {
  in_api = starts_with-append root _;
  body = refl;
  may_refresh = refl;
}
event_call-IsSendable e (delete_event i) = record {
  in_api = starts_with-append root _;
  body = refl;
  may_refresh = refl;
}
event_call-IsSendable e (create_event j) = record { in_api = refl; body = refl; may_refresh = refl }
event_call-IsSendable e (get_category_availability v c) = record {
  in_api = starts_with-append root _;
  body = refl;
  may_refresh = refl;
}
event_call-IsSendable e (update_event i j) = record {
  in_api = starts_with-append root _;
  body = refl;
  may_refresh = refl;
}
event_call-IsSendable e (duplicate_event i n d) = record {
  in_api = starts_with-append root _;
  body = refl;
  may_refresh = refl;
}

registration_call-IsSendable :
    (e : Encoding) (c : RegistrationCall) → IsSendable (registration_call e c)
unfolding registration_call
registration_call-IsSendable e (issue_ticket_token i) = record {
  in_api = starts_with-append root _;
  body = refl;
  may_refresh = refl;
}
registration_call-IsSendable e (get_registration i) = record {
  in_api = starts_with-append root _;
  body = refl;
  may_refresh = refl;
}
registration_call-IsSendable e (get_registration_payment i) = record {
  in_api = starts_with-append root _;
  body = refl;
  may_refresh = refl;
}
registration_call-IsSendable e (verify_registration_payment i) = record {
  in_api = starts_with-append root _;
  body = refl;
  may_refresh = refl;
}
registration_call-IsSendable e (cancel_registration i) = record {
  in_api = starts_with-append root _;
  body = refl;
  may_refresh = refl;
}
registration_call-IsSendable e (register_for_event v j) = record {
  in_api = starts_with-append root _;
  body = refl;
  may_refresh = refl;
}
registration_call-IsSendable e (submit_registration_payment i r) = record {
  in_api = starts_with-append root _;
  body = refl;
  may_refresh = refl;
}
registration_call-IsSendable e (admin_review_payment i d) = record {
  in_api = starts_with-append root _;
  body = refl;
  may_refresh = refl;
}

programme_call-IsSendable : (e : Encoding) (c : ProgrammeCall) → IsSendable (programme_call e c)
unfolding programme_call
programme_call-IsSendable e (create_item p v j) = record {
  in_api = starts_with-append root _;
  body = refl;
  may_refresh = refl;
}
programme_call-IsSendable e (update_item p v i j) = record {
  in_api = starts_with-append root _;
  body = refl;
  may_refresh = refl;
}
programme_call-IsSendable e (delete_item p v i) = record {
  in_api = starts_with-append root _;
  body = refl;
  may_refresh = refl;
}
programme_call-IsSendable e (create_schedule_item v i) = record {
  in_api = starts_with-append root _;
  body = refl;
  may_refresh = refl;
}
programme_call-IsSendable e (update_schedule_item v i t) = record {
  in_api = starts_with-append root _;
  body = refl;
  may_refresh = refl;
}
programme_call-IsSendable e (delete_schedule_item v i) = record {
  in_api = starts_with-append root _;
  body = refl;
  may_refresh = refl;
}
programme_call-IsSendable e (list_event_automations v) = record {
  in_api = starts_with-append root _;
  body = refl;
  may_refresh = refl;
}

admin_call-IsSendable : (e : Encoding) (c : AdminCall) → IsSendable (admin_call e c)
unfolding admin_call
admin_call-IsSendable e (check_in v t) = record { in_api = refl; body = refl; may_refresh = refl }
admin_call-IsSendable e get_metrics = record { in_api = refl; body = refl; may_refresh = refl }
admin_call-IsSendable e get_system_status = record {
  in_api = refl;
  body = refl;
  may_refresh = refl;
}
admin_call-IsSendable e get_automations = record { in_api = refl; body = refl; may_refresh = refl }
admin_call-IsSendable e (retry_automation_delivery i) = record {
  in_api = starts_with-append root _;
  body = refl;
  may_refresh = refl;
}
admin_call-IsSendable e (AdminCall.get_registration i) = record {
  in_api = starts_with-append root _;
  body = refl;
  may_refresh = refl;
}
admin_call-IsSendable e (update_user_role u r) = record {
  in_api = starts_with-append root _;
  body = refl;
  may_refresh = refl;
}
admin_call-IsSendable e (restore_site_config_version n) = record {
  in_api = starts_with-append root _;
  body = refl;
  may_refresh = refl;
}

-- Every request of the signed-in site goes to the API, may refresh the session, and has a body only where
-- `fetch` takes one: never with GET or DELETE, and always with PATCH.
pub request_of-IsSendable : (e : Encoding) (c : ApiCall) → IsSendable (request_of e c)
unfolding request_of
request_of-IsSendable e (account c) = account_call-IsSendable c
request_of-IsSendable e (event c) = event_call-IsSendable e c
request_of-IsSendable e (registration c) = registration_call-IsSendable e c
request_of-IsSendable e (programme c) = programme_call-IsSendable e c
request_of-IsSendable e (admin c) = admin_call-IsSendable e c

-- A time of the schedule is completed once: completing it again changes nothing.
pub with_seconds-idempotent : (time : String) → with_seconds (with_seconds time) ≡ with_seconds time
unfolding with_seconds
with_seconds-idempotent time = elim (Bool-cases (len time == 5)) [
  | inl e ↦ ground (arith, len-append time ":00")
  | inr e ↦ ground arith
]
