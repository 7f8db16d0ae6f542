-- ===== src/Mobile/Realtime/Privacy.antt =====
-- Which queries the signals invalidate.
use unity_runn.Prelude.{◌≡◌, refl, List, [], ◌∷◌, ◌++◌, Bool, true, false}
use mathlib.Core.List.{append-nil, append_assoc}
use unity_runn.Mobile.Realtime.{
  Signal, events_changed, registrations_changed, connected, Key, events, event, registrations,
  registration, live_activities, Board, subscribe_to_realtime, unsubscribe, when_events_changed,
  when_registrations_changed, when_connected, deliver, run,
}

-- What a signal is to invalidate: for a visitor the public keys, and after a new connection all that may
-- have been missed.
abbrev pub public_keys : Signal → List Key
public_keys registrations_changed = []
public_keys _ = events ∷ event ∷ []

abbrev pub private_keys : Signal → Bool → List Key
private_keys events_changed signed_in = []
private_keys _ false = []
private_keys _ true = registrations ∷ registration ∷ live_activities ∷ []

abbrev pub due : List (Signal × Bool) → List Key
due [] = []
due ((s, signed_in) ∷ es) = (public_keys s ++ private_keys s signed_in) ++ due es

abbrev pub subscribed : List Key → Board
subscribed keys = record {
  on_events = true;
  on_registrations = true;
  on_connect = true;
  invalidated = keys;
}

deliver-subscribed :
    (keys : List Key) (s : Signal) (signed_in : Bool)
    → deliver s signed_in (subscribed keys)
      ≡ subscribed (keys ++ (public_keys s ++ private_keys s signed_in))
unfolding deliver when_events_changed when_registrations_changed when_connected
deliver-subscribed keys events_changed signed_in = refl
deliver-subscribed keys registrations_changed true = refl
deliver-subscribed keys registrations_changed false = rw (append-nil keys) refl
deliver-subscribed keys connected true =
    rw
      (append_assoc keys (events ∷ event ∷ [])
        (registrations ∷ registration ∷ live_activities ∷ []))
      refl
deliver-subscribed keys connected false = refl

run-subscribed :
    (keys : List Key) (es : List (Signal × Bool))
    → run es (subscribed keys) ≡ subscribed (keys ++ due es)
unfolding run
run-subscribed keys [] = rw (append-nil keys) refl
run-subscribed keys ((s, signed_in) ∷ es) =
    rw
      (
        deliver-subscribed keys s signed_in,
        run-subscribed (keys ++ (public_keys s ++ private_keys s signed_in)) es,
        append_assoc keys (public_keys s ++ private_keys s signed_in) (due es),
      )
      refl

run-unsubscribed :
    (keys : List Key) (later : List (Signal × Bool))
    → (run later (unsubscribe (subscribed keys))).invalidated ≡ keys
unfolding run deliver unsubscribe
run-unsubscribed keys [] = refl
run-unsubscribed keys ((events_changed, signed_in) ∷ later) = run-unsubscribed keys later
run-unsubscribed keys ((registrations_changed, signed_in) ∷ later) = run-unsubscribed keys later
run-unsubscribed keys ((connected, signed_in) ∷ later) = run-unsubscribed keys later

-- While the app is subscribed, the signals invalidate the public keys on each change of an event and the
-- private ones on each change of a registration while the user is signed in, and both on each connection;
-- a visitor's private keys are never touched, and after the subscription has ended nothing is.
pub subscribe_to_realtime-due :
    (b : Board) (es later : List (Signal × Bool))
    → (run later (unsubscribe (run es (subscribe_to_realtime b)))).invalidated
      ≡ b.invalidated ++ due es
unfolding subscribe_to_realtime
subscribe_to_realtime-due b es later =
    rw (run-subscribed b.invalidated es) (run-unsubscribed (b.invalidated ++ due es) later)
