-- ===== src/Mobile/LiveActivity/Service/Examples.antt =====
-- The theorems of the service at concrete inputs.
use unity_runn.Prelude.{ℕ, String, ◌≡◌, refl, none, List, [], ◌∷◌, ◌++◌, true, false}
use unity_runn.Exec.{Failure, api, ok, err}
use unity_runn.Exec.Keeps.{Keeps}
use unity_runn.Mobile.LiveActivity.Bridge.{Started}
use unity_runn.Mobile.LiveActivity.Service.{
  Service, Calls, ActivityRecord, known, dismiss, reconcile_orphans, get_active, snapshot,
}

abbrev native : Started
native = record { activity_id = "a"; push_token = "t" }

abbrev following : ActivityRecord
following = record { id = "1"; activity_id = "a" }

abbrev rejection : Failure
rejection =
    api (record { message = "Already following."; status = 409; code = "already_following" })

-- A phone that runs "a" and "b", and collects the ids that it is asked to end; the backend knows "a".
abbrev Log : Type 0
Log = Service (List String)

abbrev calls : Calls (List String)
calls = record {
  is_supported = λ w. (ok true, w);
  start = λ d w. (ok native, w);
  update = λ id u w. (ok tt, w);
  end = λ id w. (ok tt, record w { outer = w.outer ++ (id ∷ []) });
  push_token = λ id w. (ok none, w);
  running = λ w. (ok ("a" ∷ "b" ∷ []), w);
  post = λ p b w. (err rejection, w);
  patch = λ p s w. (ok following, w);
  delete = λ p w. (ok tt, w);
  list = λ p w. (ok (following ∷ []), w);
}

abbrev idle : Log
idle = record { starts_in_flight = 0; start_generation = 6; outer = [] }

get_active-test : (get_active calls idle).1.outer ≡ "b" ∷ []
unfolding get_active snapshot reconcile_orphans dismiss
get_active-test = refl

abbrev InFlight : ℕ → Log → Type 0
InFlight n w = w.starts_in_flight ≡ n

ends-keep : (id : String) → known (following ∷ []) id ≡ false → Keeps (InFlight 0) (calls.end id)
ends-keep id unknown = record { at = λ w h. h }
