-- ===== src/Mobile/LiveActivity/Service/Reports.antt =====
-- What the service reports of a failure, and what it ends of the activities on the phone.
use unity_runn.Prelude.{
  ◌≡◌, arith, String, List, [], ◌∷◌, ◌↔◌, true, false, Bool-cases, inl, inr, str_eq,
}
use unity_runn.Exec.{ApiError, Failure, api, unsupported}
use unity_runn.Exec.Keeps.{Keeps}
use unity_runn.Mobile.LiveActivity.Service.{
  Service, Calls, ActivityRecord, unsupported_device, already_following, not_found, wrap, known,
  orphans, dismiss, reconcile_orphans,
}

abbrev pub IsApi : Failure → (ApiError → Type 0) → Type 0
IsApi e P = (a : ApiError) × (e ≡ api a) × P a

-- An error says that the device has no live activities exactly if the bridge reported that, that the
-- event is followed already exactly if the service gave that code, and that the activity was not found
-- exactly if the service answered 404 with another code.
pub wrap-reason :
    (e : Failure)
    → ((wrap e).reason ≡ unsupported_device ↔ ((m : String) × (e ≡ unsupported m)))
      × ((wrap e).reason ≡ already_following
          ↔ IsApi e (λ a. str_eq a.code "already_following" ≡ true))
      × ((wrap e).reason ≡ not_found
          ↔ IsApi e (λ a. (a.status ≡ 404) × (str_eq a.code "already_following" ≡ false)))
unfolding wrap
wrap-reason e = ground arith

module _ {S : Type 0} (c : Calls S) (P : Service S → Type 0) (active : List ActivityRecord) where
  dismiss-keeps :
      (ids : List String)
      → ((id : String) → known active id ≡ false → Keeps P (c.end id))
      → (w : Service S) → P w
      → P (dismiss c (orphans active ids) w)
  unfolding dismiss
  dismiss-keeps [] k w h = h
  dismiss-keeps (id ∷ ids) k w h = elim (Bool-cases (known active id)) [
    | inl there ↦ rw there (dismiss-keeps ids k w h)
    | inr gone ↦ rw gone (dismiss-keeps ids k (c.end id w).1 ((k id gone).at w h))
  ]

  -- Reconciling ends only activities that the backend's answer does not contain: it keeps whatever is
  -- kept by ending such activities.
  pub reconcile_orphans-keeps :
      (ids : List String)
      → ((id : String) → known active id ≡ false → Keeps P (c.end id))
      → (w : Service S) → P w
      → P (reconcile_orphans c active ids w)
  unfolding reconcile_orphans
  reconcile_orphans-keeps = dismiss-keeps
