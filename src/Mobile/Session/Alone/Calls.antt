-- ===== src/Mobile/Session/Alone/Calls.antt =====
-- How often `request` calls the service.
use unity_runn.Prelude.{
  ℕ, ◌+◌, ◌*◌, ◌≤◌, String, ◌≡◌, true, false, List, [], ◌∷◌, ◌∙◌, refl, arith, if◌then◌else◌,
  str_eq,
}
use unity_runn.Exec.{Failure}
use unity_runn.Mobile.Api.{Payload, RequestOptions}
use unity_runn.Mobile.Session.State.{SessionState, Effect, sent, World}
use unity_runn.Mobile.Session.Identity.{
  send, accept_pair, accept_fields, accept, forget, emit, clear_cache, notify,
}
use unity_runn.Mobile.Session.Operations.{
  logout_path, refresh_path, keep_or_revoke, revoke, rotate, rotate_token, refresh, restore,
  restore_failed,
}
use unity_runn.Mobile.Session.Request.{
  send_now, send_checked, give_up, resend, retry, refused, attempt, prepare, request,
}
use unity_runn.Mobile.Session.Alone.{Backing, alone}

abbrev pub same : String → String → ℕ
same p q = if str_eq p q then 1 else 0

abbrev pub tally : String → Effect → ℕ
tally p (sent q options) = same q p
tally p _ = 0

-- The calls of a path that were made so far.
abbrev pub calls : String → List Effect → ℕ
calls p [] = 0
calls p (e ∷ t) = tally p e + calls p t

calls-notify :
    (p : String) (ls : List ℕ) (s : SessionState) (t : List Effect)
    → calls p (notify ls s t) ≡ calls p t
calls-notify p [] s t = refl
calls-notify p (l ∷ ls) s t = calls-notify p ls s _ ∙ omega arith

emit-calls :
    (p : String) (s : SessionState) (w : World) → calls p (emit s w).trace ≡ calls p w.trace
unfolding emit
emit-calls p s w = calls-notify p w.listeners s w.trace

clear_cache-calls : (p : String) (w : World) → calls p (clear_cache w).trace ≡ calls p w.trace
unfolding clear_cache
clear_cache-calls p w = omega arith

module _ (b : Backing) (p : String) (other : str_eq logout_path p ≡ false) where
  forget-calls : (w : World) → calls p (forget (alone b) w).1.trace ≡ calls p w.trace
  unfolding forget
  forget-calls w = grind (arith, emit-calls, clear_cache-calls)

  accept-calls :
      (r : Payload) (w : World) → calls p (accept (alone b) r w).1.trace ≡ calls p w.trace
  unfolding accept accept_fields accept_pair
  accept-calls r w = grind (arith, emit-calls)

  revoke-calls :
      (r : Payload) (e : Failure) (w : World)
      → calls p (revoke (alone b) r e w).1.trace ≡ calls p w.trace
  unfolding revoke send
  revoke-calls r e w = grind (arith, forget-calls)

  keep_or_revoke-calls :
      (r : Payload) (w : World) → calls p (keep_or_revoke (alone b) r w).1.trace ≡ calls p w.trace
  unfolding keep_or_revoke
  keep_or_revoke-calls r w = grind (arith, accept-calls, revoke-calls)

  rotate_token-calls :
      (t : String) (w : World)
      → calls p (rotate_token (alone b) t w).1.trace ≡ same refresh_path p + calls p w.trace
  unfolding rotate_token send
  rotate_token-calls t w = grind (arith, keep_or_revoke-calls, forget-calls)

  rotate-calls :
      (w : World) → calls p (rotate (alone b) w).1.trace ≤ same refresh_path p + calls p w.trace
  unfolding rotate
  rotate-calls w = grind (arith, rotate_token-calls, forget-calls)

  refresh-calls :
      (w : World) → calls p (refresh (alone b) w).1.trace ≤ same refresh_path p + calls p w.trace
  unfolding refresh
  refresh-calls w = ground (arith, rotate-calls (record w { refresh_flight = true }))

  restore-calls :
      (w : World) → calls p (restore (alone b) w).1.trace ≤ same refresh_path p + calls p w.trace
  unfolding restore restore_failed
  restore-calls w = grind (arith, refresh-calls, emit-calls)

  module _ (path : String) (o : RequestOptions) where
    send_checked-calls :
        (v : ℕ) (w : World)
        → calls p (send_checked (alone b) path o v w).1.trace ≡ same path p + calls p w.trace
    unfolding send_checked send_now send
    send_checked-calls v w = ground arith

    give_up-calls :
        (v : ℕ) (e : Failure) (w : World)
        → calls p (give_up (alone b) path o v e w).1.trace ≡ calls p w.trace
    unfolding give_up
    give_up-calls v e w = ground (arith, forget-calls w)

    resend-calls :
        (v : ℕ) (w : World)
        → calls p (resend (alone b) path o v w).1.trace ≤ same path p + calls p w.trace
    unfolding resend
    resend-calls v w = grind (arith, send_checked-calls, give_up-calls)

    retry-calls :
        (v : ℕ) (t : String) (w : World)
        → calls p (retry (alone b) path o v t w).1.trace
          ≤ same refresh_path p + same path p + calls p w.trace
    unfolding retry
    retry-calls v t w =
        ground (arith, resend-calls v w, refresh-calls w, resend-calls v (refresh (alone b) w).1)

    attempt-calls :
        (w : World)
        → calls p (attempt (alone b) path o w).1.trace
          ≤ same refresh_path p + 2 * same path p + calls p w.trace
    unfolding attempt refused
    attempt-calls w = grind (arith, send_checked-calls, retry-calls)

  prepare-calls :
      (w : World)
      → calls p (prepare (alone b) w).1.trace ≤ 2 * same refresh_path p + calls p w.trace
  unfolding prepare
  prepare-calls w = grind (arith, restore-calls, refresh-calls)

-- A request calls its own path twice at most, and refreshes three times at most, whatever the service
-- answers: once to restore the session, once for a missing access token, and once after a refusal.
-- Any other path but that of the revocation it does not call.
pub request-calls :
    (b : Backing) (p path : String) (o : RequestOptions) (w : World)
    → str_eq logout_path p ≡ false
    → calls p (request (alone b) path o w).1.trace
      ≤ 3 * same refresh_path p + 2 * same path p + calls p w.trace
unfolding request
request-calls b p path o w other = grind (arith, prepare-calls b p other, attempt-calls b p other)
