-- ===== src/Mobile/LiveActivity/PushToken.antt =====
-- mobile/services/liveActivity/pushToken.ts: the wait for a token, as a state machine. What the source of
-- tokens does, and the timer, are the events.
pub mod Settles
mod Examples
use unity_runn.Prelude.{
  String, Option, none, some, List, [], ◌∷◌, ◌++◌, Bool, true, false, not, ◌&&◌, truthy,
  if◌then◌else◌,
}

-- `subscription` says whether the variable is set, `listening` whether the source has the listener, and
-- `asked` whether the getter was called; `resolved` collects the calls of `resolve`.
pub record Wait : Type 0 where
  pub settled : Bool
  pub subscription : Bool
  pub listening : Bool
  pub timer : Bool
  pub asked : Bool
  pub resolved : List String

pub data Event : Type 0 where
  notified : String → Event
  fetched : Option String → Event
  failed timeout : Event

-- How `addPushTokenListener` goes: the tokens that it delivers before it returns or throws.
pub record Subscribing : Type 0 where
  pub returns : Bool
  pub delivered : List String

abbrev pub initial : Wait
initial = record {
  settled = false;
  subscription = false;
  listening = false;
  timer = true;
  asked = false;
  resolved = [];
}

unfoldable pub remove_listener : Wait → Wait
remove_listener w = record w {
  listening = if w.subscription then false else w.listening;
  subscription = false;
}

unfoldable pub finish : String → Wait → Wait
finish token w =
    if w.settled
    then w
    else (let w' = remove_listener (record w { settled = true; timer = false }) in
        record w' { resolved = w'.resolved ++ (token ∷ []) })

-- The listener
unfoldable pub notify : String → Wait → Wait
notify token w = if truthy token then finish token w else w

unfoldable pub notify_all : List String → Wait → Wait
notify_all [] w = w
notify_all (t ∷ ts) w = notify_all ts (notify t w)

unfoldable pub subscribe : Subscribing → Wait → Wait
subscribe s w =
    let w' = notify_all s.delivered (record w { listening = s.returns }) in
    if s.returns
    then (let set = record w' { subscription = true } in
        if set.settled then remove_listener set else set)
    else w'

unfoldable pub await_push_token : Subscribing → Wait
await_push_token s = let w = subscribe s initial in record w { asked = not w.settled }

-- The source calls a listener only while it has it, the getter answers only if it was called, and a timer
-- that is cleared does not fire.
unfoldable pub step : Event → Wait → Wait
step (notified t) w = if w.listening then notify t w else w
step (fetched none) w = w
step (fetched (some t)) w = if w.asked then notify t w else w
step failed w = w
step timeout w = if w.timer then finish "" w else w

unfoldable pub run : List Event → Wait → Wait
run [] w = w
run (e ∷ es) w = run es (step e w)
