-- ===== src/Mobile/Session/Alone/Invariant.antt =====
-- What holds of a session between its operations, whatever the service and the storage do.
use unity_runn.Prelude.{
  ℕ, String, ◌≡◌, refl, Option, none, some, Bool, true, false, arith, truthy, is_some, inl, inr,
  Option-cases,
}
use unity_runn.Exec.{Failure, ok, Result-cases}
use unity_runn.Exec.Keeps.{Keeps, Keeps-catching, keeps_rules}
use unity_runn.Mobile.Api.{
  User, SessionResponse, Payload, absent, session, other, Body, RequestOptions,
}
use unity_runn.Mobile.Session.State.{Status, loading, guest, authenticated, unavailable, World}
use unity_runn.Mobile.Session.Identity.{
  awaiting, send, accept_pair, accept, forget, emit, clear_cache, Pair, issued, fields,
}
use unity_runn.Mobile.Session.Operations.{
  establish, keep_or_revoke, revoke, rotate, rotate_token, refresh, restore, restore_failed,
  revoke_stored, logout_now, logout,
}
use unity_runn.Mobile.Session.Request.{
  send_now, send_checked, give_up, resend, retry, refused, attempt, prepare, request,
}
use unity_runn.Mobile.Session.Alone.{Backing, alone}
use unity_runn.Mobile.Session.Alone.Answers.{
  accept-incomplete, accept-pair, keep_or_revoke-accept_pair, keep_or_revoke-revoke,
}

-- What the status says of the user, the access token and the stored token.
abbrev pub Fits : Status → Option User → String → Option String → Type 0
Fits loading user access stored = (user ≡ none) × (access ≡ "")
Fits guest user access stored = (user ≡ none) × (access ≡ "") × (stored ≡ none)
Fits authenticated user access stored =
    (is_some user ≡ true) × (truthy access ≡ true) × (is_some stored ≡ true)
Fits unavailable user access stored = (user ≡ none)

-- With the flights that are under way.
pub record IsFit (refreshing restoring : Bool) (w : World) : Type 0 where
  pub fits : Fits w.state.status w.state.user w.access_token w.stored
  pub refresh_flight : w.refresh_flight ≡ refreshing
  pub restore_flight : w.restore_flight ≡ restoring

issued-truthy : (r : SessionResponse) (a : Pair) → issued r ≡ some a → truthy a.access ≡ true
issued-truthy r a h = ground arith

module _ (b : Backing) (p q : Bool) where
  forget-IsFit :
      (w : World) → w.refresh_flight ≡ p → w.restore_flight ≡ q → IsFit p q (forget (alone b) w).1
  unfolding forget emit clear_cache
  forget-IsFit w h k = ground arith

  revoke-IsFit :
      (result : Payload) (e : Failure) (w : World) (f : SessionResponse)
      → fields result ≡ ok f
      → w.refresh_flight ≡ p
      → w.restore_flight ≡ q
      → IsFit p q (revoke (alone b) result e w).1
  unfolding revoke send
  revoke-IsFit result e w f read h k = grind (arith, forget-IsFit)

  accept_pair-IsFit :
      (r : SessionResponse) (a : Pair) (w : World)
      → issued r ≡ some a
      → IsFit p q w
      → (accept_pair (alone b) a w).0 ≡ ok tt
      → IsFit p q (accept_pair (alone b) a w).1
  unfolding accept_pair emit
  accept_pair-IsFit r a w pair h kept = ground (arith, issued-truthy r a pair)

  accept_pair-flights :
      (a : Pair) (w : World)
      → IsFit p q w
      → ((accept_pair (alone b) a w).1.refresh_flight ≡ p)
        × ((accept_pair (alone b) a w).1.restore_flight ≡ q)
  unfolding accept_pair emit
  accept_pair-flights a w h = ground arith

  keep_or_revoke-absent : (w : World) → (keep_or_revoke (alone b) absent w).1 ≡ w
  unfolding keep_or_revoke accept revoke
  keep_or_revoke-absent w = refl

  keep_or_revoke-IsFit_read :
      (result : Payload) (f : SessionResponse) (w : World)
      → fields result ≡ ok f
      → IsFit p q w
      → IsFit p q (keep_or_revoke (alone b) result w).1
  keep_or_revoke-IsFit_read result f w read h = elim (Option-cases (issued f)) [
    | inl nothing ↦
        rw (keep_or_revoke-revoke b w result f _ w (accept-incomplete b w result f read nothing))
          (revoke-IsFit result _ w f read h.refresh_flight h.restore_flight)
    | inr (a, pair) ↦ elim (Result-cases (accept_pair (alone b) a w).0) [
      | inl kept ↦
          rw (keep_or_revoke-accept_pair b w result f a read pair kept)
            (accept_pair-IsFit f a w pair h kept)
      | inr (e, failed) ↦
          rw
            (keep_or_revoke-revoke b w result f e (accept_pair (alone b) a w).1
              (rw (accept-pair b w result f a read pair) (ground arith)))
            (revoke-IsFit result e _ f read (accept_pair-flights a w h).0
              (accept_pair-flights a w h).1)
    ]
  ]

  keep_or_revoke-IsFit :
      (result : Payload) (w : World) → IsFit p q w → IsFit p q (keep_or_revoke (alone b) result w).1
  keep_or_revoke-IsFit absent w h = rw (keep_or_revoke-absent w) h
  keep_or_revoke-IsFit (session f) w h = keep_or_revoke-IsFit_read (session f) f w refl h
  keep_or_revoke-IsFit (other j) w h = keep_or_revoke-IsFit_read (other j) _ w refl h

  pub establish-IsFit :
      (path : String) (body : Body) (w : World)
      → IsFit p q w
      → IsFit p q (establish (alone b) path body w).1
  unfolding establish send clear_cache
  establish-IsFit path body w h = grind (arith, keep_or_revoke-IsFit)

  rotate_token-IsFit :
      (t : String) (w : World) → IsFit p q w → IsFit p q (rotate_token (alone b) t w).1
  unfolding rotate_token send
  rotate_token-IsFit t w h = grind (arith, keep_or_revoke-IsFit, forget-IsFit)

  rotate-IsFit : (w : World) → IsFit p q w → IsFit p q (rotate (alone b) w).1
  unfolding rotate
  rotate-IsFit w h = grind (arith, rotate_token-IsFit, forget-IsFit)

  revoke_stored-IsFit : (w : World) → IsFit p q w → IsFit p q (revoke_stored (alone b) w).1
  unfolding revoke_stored send
  revoke_stored-IsFit w h = ground arith

  pub logout-IsFit : (w : World) → IsFit p q w → IsFit p q (logout (alone b) w).1
  unfolding logout logout_now
  logout-IsFit w h =
      ground (arith, revoke_stored-IsFit w h, forget-IsFit (revoke_stored (alone b) w).1)

-- Between operations no flight is under way.
abbrev pub IsValid : World → Type 0
IsValid = IsFit false false

module _ (b : Backing) where
  pub refresh-IsFit :
      (q : Bool) (w : World) → IsFit false q w → IsFit false q (refresh (alone b) w).1
  unfolding refresh
  refresh-IsFit q w h = ground (
    arith,
    rotate-IsFit b true q (record w { refresh_flight = true })
        (record { fits = h.fits; refresh_flight = refl; restore_flight = h.restore_flight }),
  )

  restore_failed-IsFit :
      (p q : Bool) (e : Failure) (w : World)
      → IsFit p q w
      → IsFit p q (restore_failed (alone b) e w).1
  unfolding restore_failed emit
  restore_failed-IsFit p q e w h = ground arith

  refresh-Keeps : (q : Bool) → Keeps (IsFit false q) (awaiting (alone b) (refresh (alone b)))
  refresh-Keeps q = record { at = refresh-IsFit q }

  restore_failed-Keeps :
      (q : Bool) (e : Failure) → Keeps (IsFit false q) (restore_failed (alone b) e)
  restore_failed-Keeps q e = record { at = restore_failed-IsFit false q e }

  pub restore-IsValid : (w : World) → IsValid w → IsValid (restore (alone b) w).1
  unfolding restore
  restore-IsValid w h = ground (
    arith,
    (Keeps-catching (awaiting (alone b) (refresh (alone b))) (restore_failed (alone b))
          (refresh-Keeps true) (restore_failed-Keeps true)).at
        (record w { restore_flight = true })
        (record { fits = h.fits; refresh_flight = h.refresh_flight; restore_flight = refl }),
  )

  restore-Keeps : Keeps IsValid (awaiting (alone b) (restore (alone b)))
  restore-Keeps = record { at = restore-IsValid }

  send_checked-Keeps :
      (path : String) (o : RequestOptions) (v : ℕ) → Keeps IsValid (send_checked (alone b) path o v)
  unfolding send_checked send_now send
  send_checked-Keeps path o v = record { at = λ w h. ground arith }

  give_up-Keeps :
      (path : String) (o : RequestOptions) (v : ℕ) (e : Failure)
      → Keeps IsValid (give_up (alone b) path o v e)
  unfolding give_up
  give_up-Keeps path o v e = record {
    at = λ w h. ground (arith, forget-IsFit b false false w h.refresh_flight h.restore_flight);
  }

  ruleset request_rules =
      (keeps_rules, refresh-Keeps, restore-Keeps, send_checked-Keeps, give_up-Keeps)

  retry-Keeps :
      (path : String) (o : RequestOptions) (v : ℕ) (t : String)
      → Keeps IsValid (retry (alone b) path o v t)
  unfolding retry resend
  retry-Keeps path o v t = search request_rules depth 8

  refused-Keeps :
      (path : String) (o : RequestOptions) (v : ℕ) (t : String) (e : Failure)
      → Keeps IsValid (refused (alone b) path o v t e)
  unfolding refused
  refused-Keeps path o v t e = search (request_rules, retry-Keeps) depth 8

  attempt-Keeps : (path : String) (o : RequestOptions) → Keeps IsValid (attempt (alone b) path o)
  unfolding attempt
  attempt-Keeps path o = record {
    at = λ w h.
        (Keeps-catching (send_checked (alone b) path o w.identity_version)
            (refused (alone b) path o w.identity_version w.access_token)
            (send_checked-Keeps path o w.identity_version)
            (refused-Keeps path o w.identity_version w.access_token)).at
          w h;
  }

  prepare-Keeps : Keeps IsValid (prepare (alone b))
  unfolding prepare
  prepare-Keeps = search request_rules depth 8

  pub request-Keeps :
      (path : String) (o : RequestOptions) → Keeps IsValid (request (alone b) path o)
  unfolding request
  request-Keeps path o = search (keeps_rules, prepare-Keeps, attempt-Keeps)
