-- ===== src/Mobile/Session/Alone/Tests.antt =====
-- The runs of mobile/tests/session.test.ts.
use unity_runn.Prelude.{
  String, ◌≡◌, refl, Option, none, some, List, [], false, if◌then◌else◌, str_eq, or_else,
}
use unity_runn.Exec.{Failure, Result, ok, err}
use unity_runn.Mobile.Api.{Body, User, user, Payload, session, other, RequestOptions}
use unity_runn.Mobile.Session.State.{Status, Effect, loading, guest, World}
use unity_runn.Mobile.Session.Identity.{
  send, accept_pair, accept_fields, accept, forget, emit, clear_cache, api_error,
  logout_unconfirmed,
}
use unity_runn.Mobile.Session.Operations.{
  refresh, restore, logout, authenticate, login, logout_now, establish, rotate, rotate_token,
  keep_or_revoke, revoke, revoke_stored, restore_failed,
}
use unity_runn.Mobile.Session.Request.{
  send_now, send_checked, give_up, resend, retry, refused, attempt, prepare, request,
}
use unity_runn.Mobile.Session.Alone.{Backing, alone}

pub session_runs : Unit {0}
unfolding send accept_pair accept_fields accept forget emit clear_cache logout logout_now
    authenticate establish rotate rotate_token keep_or_revoke revoke revoke_stored restore_failed
    refresh restore send_now send_checked give_up resend retry refused attempt prepare request
session_runs = tt

abbrev pub runner : User
runner = record { id = "runner"; email = "runner@example.com"; role = user }

abbrev pub pair : String → String → Payload
pair a r = session (record { access_token = some a; refresh_token = some r; user = some runner })

abbrev pub start : Option String → World
start s = record {
  access_token = "";
  state = record { status = loading; user = none; message = none };
  listeners = [];
  refresh_flight = false;
  restore_flight = false;
  identity_version = 0;
  stored = s;
  trace = [];
}

abbrev pub unauthorized : Failure
unauthorized = api_error "Expired" 401 "unauthorized"

abbrev pub offline : Failure
offline = api_error "Offline" 0 "network_error"

abbrev pub serving : (String → RequestOptions → List Effect → Result Payload) → Backing
serving reply = record {
  reply = reply;
  get_fault = λ t. none;
  set_fault = λ r t. none;
  remove_fault = λ t. none;
}

-- A service whose first access token has expired.
abbrev pub rotating : Backing
rotating = serving (λ path o t.
    if str_eq path "/api/v1/auth/mobile/login"
    then ok (pair "access-1" "refresh-1")
    else if str_eq path "/api/v1/auth/mobile/refresh"
    then ok (pair "access-2" "refresh-2")
    else if str_eq (or_else o.token "") "access-1"
    then err unauthorized
    else ok (other "ok"))

abbrev pub getting : RequestOptions
getting = record { method = none; body = Body.undefined; token = none }

abbrev pub signed_in : World
signed_in =
    (authenticate (alone rotating) login "runner@example.com" "password" none (start none)).1

pub rotates_once :
    ((request (alone rotating) "/api/v1/me/" getting signed_in).0 ≡ ok (other "ok"))
    × ((request (alone rotating) "/api/v1/me/" getting signed_in).1.stored ≡ some "refresh-2")
    × ((request (alone rotating) "/api/v1/me/" getting signed_in).1.access_token ≡ "access-2")
unfolding session_runs
rotates_once = (refl, refl, refl)

revoked_restore :
    let w = (restore (alone (serving (λ path o t. err unauthorized))) (start (some "revoked"))).1 in
    (w.state.status ≡ guest) × (w.stored ≡ none)
unfolding session_runs
revoked_restore = (refl, refl)

restoration_without_network :
    let w = (restore (alone (serving (λ path o t. err offline))) (start (some "refresh-1"))).1 in
    (w.state.status ≡ Status.unavailable) × (w.stored ≡ some "refresh-1")
unfolding session_runs
restoration_without_network = (refl, refl)

signing_out_without_network :
    let r = logout (alone (serving (λ path o t. err offline))) (start (some "refresh-1")) in
    (r.0 ≡ err logout_unconfirmed) × (r.1.state.status ≡ guest) × (r.1.stored ≡ none)
unfolding session_runs
signing_out_without_network = (refl, refl, refl)
