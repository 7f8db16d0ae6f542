-- ===== src/Web/RunnerProfile.antt =====
-- frontend/src/pages/profile.tsx: the details of a runner and the delivery of messages by Telegram. A call is split
-- at its await; `trim` and the clock are parameters, and dates are ASCII.
pub mod Choices
pub mod Saving
mod Examples
use Prim.Native.String.{slice}
use unity_runn.Prelude.{
  ℕ, suc, ◌+◌, String, Option, none, some, List, [], ◌∷◌, Bool, true, false, not, ◌&&◌, ◌||◌, ◌==◌,
  truthy, str_eq, or_else, is_some, keep, length, if◌then◌else◌,
}
use unity_runn.Exec.{Failure, api, Result, ok, err}
use unity_runn.Mobile.Payment.{message_of}
use unity_runn.Web.Alerts.{Tone, success_tone, ToastInput, Alerts, notify}

pub record ProfileForm : Type 0 where
  pub full_name : String
  pub phone : String
  pub date_of_birth : String
  pub gender : String
  pub emergency_contact_name : String
  pub emergency_contact_phone : String
  pub tshirt_size : String

abbrev pub empty_form : ProfileForm
empty_form = record {
  full_name = "";
  phone = "";
  date_of_birth = "";
  gender = "";
  emergency_contact_name = "";
  emergency_contact_phone = "";
  tshirt_size = "";
}

-- What the service knows of a runner; a date has its time behind it.
pub record RunnerProfile : Type 0 where
  pub full_name : String
  pub phone : Option String
  pub date_of_birth : Option String
  pub gender : Option String
  pub emergency_contact_name : Option String
  pub emergency_contact_phone : Option String
  pub tshirt_size : Option String

pub record Preferences : Type 0 where
  pub tickets : Bool
  pub reminders : Bool
  pub event_updates : Bool

abbrev pub default_telegram_preferences : Preferences
default_telegram_preferences = record { tickets = true; reminders = true; event_updates = true }

pub data PreferenceKey : Type 0 where
  tickets_key reminders_key updates_key : PreferenceKey

pub record TelegramStatus : Type 0 where
  pub available : Bool
  pub connected : Bool
  pub bot_name : Option String
  pub preferences : Preferences

pub record RunnerMe : Type 0 where
  pub name : String
  pub profile : Option RunnerProfile

pub record ProfilePage : Type 0 where
  pub user : Option RunnerMe
  pub form : ProfileForm
  pub saved_form : ProfileForm
  pub loading : Bool
  pub saving : Bool
  pub error : Option String
  pub telegram : Option TelegramStatus
  pub telegram_busy : Bool
  pub telegram_test_busy : Bool
  pub telegram_preference_busy : Option PreferenceKey
  pub telegram_link_expires_at : Option String
  pub telegram_deliveries : List String
  pub opened : List String
  pub replaced : List String
  pub alerts : Alerts

abbrev part : Option String → String
part none = ""
part (some s) = slice s 0 10

abbrev field : Option String → String
field none = ""
field (some s) = s

unfoldable pub form_from_profile : Option RunnerProfile → ProfileForm
form_from_profile none = empty_form
form_from_profile (some p) = record {
  full_name = p.full_name;
  phone = field p.phone;
  date_of_birth = part p.date_of_birth;
  gender = field p.gender;
  emergency_contact_name = field p.emergency_contact_name;
  emergency_contact_phone = field p.emergency_contact_phone;
  tshirt_size = field p.tshirt_size;
}

abbrev success : String → String → ProfilePage → ProfilePage
success title message s = record s {
  alerts =
      (notify
        (record { tone = success_tone; title = some title; message = message; duration = none })
        s.alerts).1;
}

abbrev offline_status : TelegramStatus
offline_status = record {
  available = false;
  connected = false;
  bot_name = none;
  preferences = default_telegram_preferences;
}

abbrev needs_login : Failure → Bool
needs_login (api e) = e.status == 401
needs_login e = false

-- The answers to the three calls; the status and the deliveries are `none` where their calls failed.
unfoldable pub end_load :
    Result (RunnerMe × Option TelegramStatus × Option (List String)) → ProfilePage → ProfilePage
end_load (ok (me, status, deliveries)) s =
    let next_form = form_from_profile me.profile in
    record s {
      user = some me;
      form = next_form;
      saved_form = next_form;
      telegram = some (or_else status offline_status);
      telegram_deliveries = or_else deliveries [];
      loading = false;
    }
end_load (err e) s =
    if needs_login e
    then record s { replaced = "/auth/login?redirect=/profile" ∷ s.replaced; loading = false }
    else record s {
      error = some (message_of e "Could not load your runner details.");
      loading = false;
    }

abbrev pub is_connected : Option TelegramStatus → Bool
is_connected none = false
is_connected (some t) = t.connected

abbrev polled : Option String → (expired : String → Bool) → ProfilePage → Bool × ProfilePage
polled none expired s = (false, s)
polled (some at) expired s =
    if is_connected s.telegram
    then (false, s)
    else if expired at
    then (false, record s { telegram_link_expires_at = none })
    else (true, s)

-- A tick of the interval, which runs while a link is open and Telegram is not connected: whether the status is asked
unfoldable pub poll : (expired : String → Bool) → ProfilePage → Bool × ProfilePage
poll expired s = polled s.telegram_link_expires_at expired s

-- An error is ignored; the list of deliveries is asked for when Telegram is connected.
unfoldable pub end_poll : Option TelegramStatus → ProfilePage → Bool × ProfilePage
end_poll none s = (false, s)
end_poll (some status) s =
    if status.connected
    then (
      true,
      success "Telegram connected" "Race tickets and important updates will now arrive there too."
          (record s { telegram = some status; telegram_link_expires_at = none }),
    )
    else (false, record s { telegram = some status })

module _ (trim : String → String) where
  unfoldable pub readiness : ProfileForm → List Bool
  readiness f =
      truthy (trim f.full_name)
      ∷ truthy (trim f.phone)
      ∷ truthy f.date_of_birth
      ∷ (truthy (trim f.emergency_contact_name) && truthy (trim f.emergency_contact_phone))
      ∷ truthy f.tshirt_size
      ∷ []

  abbrev pub ready_count : ProfileForm → ℕ
  ready_count f = length (keep (λ ready. ready) (readiness f))

  -- The payload of a save; an empty date is not sent.
  abbrev pub payload_of : ProfileForm → RunnerProfile
  payload_of f = record {
    full_name = trim f.full_name;
    phone = some (trim f.phone);
    date_of_birth = if truthy f.date_of_birth then some f.date_of_birth else none;
    gender = some f.gender;
    emergency_contact_name = some (trim f.emergency_contact_name);
    emergency_contact_phone = some (trim f.emergency_contact_phone);
    tshirt_size = some f.tshirt_size;
  }

  unfoldable pub start_save : ProfilePage → Option RunnerProfile × ProfilePage
  start_save s =
      if truthy (trim s.form.full_name)
      then (some (payload_of s.form), record s { saving = true; error = none })
      else (
        none,
        record s { error = some "Add the full name that should appear on your race entries." },
      )

abbrev pub same_form : ProfileForm → ProfileForm → Bool
same_form f g =
    str_eq f.full_name g.full_name
    && (str_eq f.phone g.phone
        && (str_eq f.date_of_birth g.date_of_birth
            && (str_eq f.gender g.gender
                && (str_eq f.emergency_contact_name g.emergency_contact_name
                    && (str_eq f.emergency_contact_phone g.emergency_contact_phone
                        && str_eq f.tshirt_size g.tshirt_size)))))

-- Two forms have the same JSON when their fields are the same.
abbrev pub is_dirty : ProfilePage → Bool
is_dirty s = not (same_form s.form s.saved_form)

abbrev named : RunnerProfile → Option RunnerMe → Option RunnerMe
named p none = none
named p (some me) = some record { name = p.full_name; profile = some p }

unfoldable pub end_save : Result RunnerProfile → ProfilePage → ProfilePage
end_save (ok profile) s =
    let next_form = form_from_profile (some profile) in
    success "Runner card saved" "New race forms will start with these details." (record s {
      form = next_form;
      saved_form = next_form;
      user = named profile s.user;
      saving = false;
    })
end_save (err e) s = record s {
  error = some (message_of e "Could not save your runner details.");
  saving = false;
}

pub record TelegramLink : Type 0 where
  pub url : String
  pub expires_at : String

abbrev pub start_connect : ProfilePage → ProfilePage
start_connect s = record s { telegram_busy = true; error = none }

unfoldable pub end_connect : Result TelegramLink → ProfilePage → ProfilePage
end_connect (ok link) s = record s {
  telegram_link_expires_at = some link.expires_at;
  opened = link.url ∷ s.opened;
  telegram_busy = false;
}
end_connect (err e) s = record s {
  error = some (message_of e "Could not start Telegram connection.");
  telegram_busy = false;
}

abbrev disconnected : Option TelegramStatus → TelegramStatus
disconnected none = record {
  available = true;
  connected = false;
  bot_name = none;
  preferences = default_telegram_preferences;
}
disconnected (some t) = record t { connected = false }

unfoldable pub end_disconnect : Result (Unit {0}) → ProfilePage → ProfilePage
end_disconnect (ok tt) s =
    success "Telegram disconnected" "Email delivery is still active for every race update."
      (record s {
        telegram = some (disconnected s.telegram);
        telegram_link_expires_at = none;
        telegram_deliveries = [];
        telegram_busy = false;
      })
end_disconnect (err e) s = record s {
  error = some (message_of e "Could not disconnect Telegram.");
  telegram_busy = false;
}

abbrev pub toggled : PreferenceKey → Preferences → Preferences
toggled tickets_key p = record p { tickets = not p.tickets }
toggled reminders_key p = record p { reminders = not p.reminders }
toggled updates_key p = record p { event_updates = not p.event_updates }

abbrev pub with_preferences : Preferences → Option TelegramStatus → Option TelegramStatus
with_preferences p none = none
with_preferences p (some t) = some (record t { preferences = p })

-- The preferences before the change, and the ones that are sent
pub record PreferenceCall : Type 0 where
  pub previous : Preferences
  pub next : Preferences

abbrev pub preferring :
    PreferenceKey
    → Option TelegramStatus
    → (busy : Bool) → ProfilePage
    → Option PreferenceCall × ProfilePage
preferring key none busy s = (none, s)
preferring key (some t) busy s = if not t.connected || busy then (none, s) else (
  some (record { previous = t.preferences; next = toggled key t.preferences }),
  record s {
    telegram = with_preferences (toggled key t.preferences) (some t);
    telegram_preference_busy = some key;
    error = none;
  },
)

unfoldable pub start_preference : PreferenceKey → ProfilePage → Option PreferenceCall × ProfilePage
start_preference key s = preferring key s.telegram (is_some s.telegram_preference_busy) s

unfoldable pub end_preference : PreferenceCall → Result TelegramStatus → ProfilePage → ProfilePage
end_preference call (ok status) s =
    success "Delivery choices saved" "Your next Telegram update will follow these choices."
      (record s { telegram = some status; telegram_preference_busy = none })
end_preference call (err e) s = record s {
  telegram = with_preferences call.previous s.telegram;
  error = some (message_of e "Could not save Telegram delivery choices.");
  telegram_preference_busy = none;
}

abbrev pub start_test : ProfilePage → ProfilePage
start_test s = record s { telegram_test_busy = true; error = none }

unfoldable pub end_test : Result (Unit {0}) → ProfilePage → ProfilePage
end_test (ok tt) s =
    success "Test signal sent" "Check your Telegram chat for the Unity Runn Club message."
      (record s { telegram_test_busy = false })
end_test (err e) s = record s {
  error = some (message_of e "Telegram did not accept the test message.");
  telegram_test_busy = false;
}
