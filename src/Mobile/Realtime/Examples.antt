-- ===== src/Mobile/Realtime/Examples.antt =====
-- The theorem of the subscription at a concrete input.
use unity_runn.Prelude.{◌≡◌, [], ◌∷◌, true, false}
use unity_runn.Mobile.Realtime.{
  events_changed, registrations_changed, connected, events, event, registrations, registration,
  live_activities, Board, subscribe_to_realtime, unsubscribe, run,
}
use unity_runn.Mobile.Realtime.Privacy.{subscribe_to_realtime-due}

abbrev fresh : Board
fresh = record { on_events = false; on_registrations = false; on_connect = false; invalidated = [] }

subscribe_to_realtime-due_example :
    (run ((events_changed, true) ∷ []) (
      unsubscribe (
        run
          ((connected, false) ∷ (registrations_changed, false) ∷ (registrations_changed, true) ∷ [])
          (subscribe_to_realtime fresh)))).invalidated
    ≡ events ∷ event ∷ registrations ∷ registration ∷ live_activities ∷ []
subscribe_to_realtime-due_example =
    subscribe_to_realtime-due fresh
      ((connected, false) ∷ (registrations_changed, false) ∷ (registrations_changed, true) ∷ [])
      ((events_changed, true) ∷ [])
