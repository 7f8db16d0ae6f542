-- ===== src/Mobile/Realtime.antt =====
-- mobile/services/realtime/invalidation.ts: which cached queries a change signal of the socket
-- invalidates. The socket calls a handler only while it is registered.
pub mod Privacy
mod Examples
use unity_runn.Prelude.{String, List, [], ◌∷◌, ◌++◌, Bool, true, false, if◌then◌else◌}

pub data Signal : Type 0 where
  events_changed registrations_changed connected : Signal

-- The query keys, by the ones of all visitors and those of the signed-in user.
pub data Key : Type 0 where
  events event registrations registration live_activities : Key

-- The handlers that are registered, and the keys that were invalidated, the first one first.
pub record Board : Type 0 where
  pub on_events : Bool
  pub on_registrations : Bool
  pub on_connect : Bool
  pub invalidated : List Key

unfoldable pub subscribe_to_realtime : Board → Board
subscribe_to_realtime b = record b { on_events = true; on_registrations = true; on_connect = true }

-- The function that `subscribeToRealtime` returns
unfoldable pub unsubscribe : Board → Board
unsubscribe b = record b { on_events = false; on_registrations = false; on_connect = false }

abbrev pub invalidate : List Key → Board → Board
invalidate keys b = record b { invalidated = b.invalidated ++ keys }

unfoldable pub when_events_changed : Board → Board
when_events_changed = invalidate (events ∷ event ∷ [])

unfoldable pub when_registrations_changed : Bool → Board → Board
when_registrations_changed signed_in b =
    if signed_in then invalidate (registrations ∷ registration ∷ live_activities ∷ []) b else b

unfoldable pub when_connected : Bool → Board → Board
when_connected signed_in b = when_registrations_changed signed_in (when_events_changed b)

-- A signal, and whether the user is signed in when it comes
unfoldable pub deliver : Signal → Bool → Board → Board
deliver events_changed signed_in b = if b.on_events then when_events_changed b else b
deliver registrations_changed signed_in b =
    if b.on_registrations then when_registrations_changed signed_in b else b
deliver connected signed_in b = if b.on_connect then when_connected signed_in b else b

unfoldable pub run : List (Signal × Bool) → Board → Board
run [] b = b
run ((s, signed_in) ∷ es) b = run es (deliver s signed_in b)
