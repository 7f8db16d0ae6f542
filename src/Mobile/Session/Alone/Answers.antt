-- ===== src/Mobile/Session/Alone/Answers.antt =====
-- What the session makes of the answer to a sign-in or a refresh, when no other task is at work.
use unity_runn.Prelude.{
  ℕ, ◌+◌, String, ◌≡◌, refl, none, some, List, [], ◌∷◌, arith, ◌⊎◌, inl, inr, ◌≢◌, Option-cases,
}
use unity_runn.Exec.{Failure, Result, ok, err, Result-cases}
use unity_runn.Mobile.Api.{SessionResponse, Payload, absent, Body, refresh_token}
use unity_runn.Mobile.Session.State.{SessionState, Effect, sent, cache_cleared, World}
use unity_runn.Mobile.Session.Identity.{
  send, accept_pair, accept_fields, accept, forget, emit, clear_cache, storage_error, notify, Pair,
  issued, fields, type_error, invalid_session,
}
use unity_runn.Mobile.Session.Operations.{establish, posting, revoke, logout_path, keep_or_revoke}
use unity_runn.Mobile.Session.Alone.{Backing, alone}
use unity_runn.Mobile.Session.Alone.Endings.{
  forget-IsCleared, accept_pair-hides, identity_version-accept_pair, IsSignedIn,
  accept_pair-IsSignedIn, IsForgotten, forget-IsForgotten,
}

abbrev pub Occurs : Effect → List Effect → Type 0
Occurs e [] = ⊥
Occurs e (x ∷ xs) = (x ≡ e) ⊎ Occurs e xs

notify-Occurs :
    (e : Effect) (ls : List ℕ) (s : SessionState) (t : List Effect)
    → Occurs e t
    → Occurs e (notify ls s t)
notify-Occurs e [] s t h = h
notify-Occurs e (l ∷ ls) s t h = notify-Occurs e ls s _ (inr h)

abbrev revocation : SessionResponse → Effect
revocation f = sent logout_path (posting (refresh_token f.refresh_token))

module _ (b : Backing) where
  forget-trace :
      (w : World)
      → (forget (alone b) w).1.trace
        ≡ notify w.listeners (forget (alone b) w).1.state (cache_cleared ∷ w.trace)
  unfolding forget emit clear_cache
  forget-trace w = ground arith

  forget-Occurs :
      (e : Effect) (w : World) → Occurs e w.trace → Occurs e (forget (alone b) w).1.trace
  forget-Occurs e w h = rw (forget-trace w) (notify-Occurs e w.listeners _ _ (inr h))

  -- What could not be kept is revoked, and no identity is left.
  revoke-ends :
      (result : Payload) (f : SessionResponse) (e : Failure) (w : World)
      → fields result ≡ ok f
      → IsForgotten w (revoke (alone b) result e w).1
        × Occurs (revocation f) (revoke (alone b) result e w).1.trace
        × (((revoke (alone b) result e w).0 ≡ err e)
            ⊎ ((revoke (alone b) result e w).0 ≡ err storage_error))
  unfolding revoke send
  revoke-ends result f e w h =
      let u = record w { trace = revocation f ∷ w.trace } in
      ground (
        arith,
        forget-IsForgotten b u,
        forget-Occurs (revocation f) u (inl refl),
        forget-IsCleared b u,
      )

-- The answer was kept: its tokens and its user are those of the session.
abbrev pub Kept : World → SessionResponse → Result (Unit {0}) → World → Type 0
Kept w f r u =
    (r ≡ ok tt)
    × (u.identity_version ≡ w.identity_version)
    × ((p : Pair) × (issued f ≡ some p) × IsSignedIn p u)

-- The answer was given up: it was revoked, and no identity is left.
abbrev pub GivenUp : World → SessionResponse → Result (Unit {0}) → World → Type 0
GivenUp w f r u = (r ≢ ok tt) × IsForgotten w u × Occurs (revocation f) u.trace

module _ (b : Backing) (w : World) (result : Payload) (f : SessionResponse) where
  pub accept-incomplete :
      fields result ≡ ok f → issued f ≡ none → accept (alone b) result w ≡ (err invalid_session, w)
  unfolding accept accept_fields
  accept-incomplete read nothing = rw (read, accept) (rw (nothing, accept_fields) refl)

  pub accept-pair :
      (p : Pair)
      → fields result ≡ ok f
      → issued f ≡ some p
      → accept (alone b) result w ≡ accept_pair (alone b) p w
  unfolding accept accept_fields
  accept-pair p read pair = rw (read, accept) (rw (pair, accept_fields) refl)

  pub keep_or_revoke-revoke :
      (e : Failure) (u : World)
      → accept (alone b) result w ≡ (err e, u)
      → keep_or_revoke (alone b) result w ≡ revoke (alone b) result e u
  unfolding keep_or_revoke
  keep_or_revoke-revoke e u failed = rw failed

  keep_or_revoke-GivenUp :
      (e : Failure) (u : World)
      → fields result ≡ ok f
      → accept (alone b) result w ≡ (err e, u)
      → u.identity_version ≡ w.identity_version
      → GivenUp w f (keep_or_revoke (alone b) result w).0 (keep_or_revoke (alone b) result w).1
  keep_or_revoke-GivenUp e u read failed same =
      let (gone, seen, ends) = revoke-ends b result f e u read in
      rw (keep_or_revoke-revoke e u failed) (ground arith, ground arith, seen)

  pub keep_or_revoke-accept_pair :
      (p : Pair)
      → fields result ≡ ok f
      → issued f ≡ some p
      → (accept_pair (alone b) p w).0 ≡ ok tt
      → keep_or_revoke (alone b) result w ≡ accept_pair (alone b) p w
  unfolding keep_or_revoke
  keep_or_revoke-accept_pair p read pair kept =
      rw (accept-pair p read pair) (rw kept (ground arith))

  keep_or_revoke-Kept :
      (p : Pair)
      → fields result ≡ ok f
      → issued f ≡ some p
      → (accept_pair (alone b) p w).0 ≡ ok tt
      → Kept w f (keep_or_revoke (alone b) result w).0 (keep_or_revoke (alone b) result w).1
  keep_or_revoke-Kept p read pair kept =
      rw (keep_or_revoke-accept_pair p read pair kept)
        (kept, identity_version-accept_pair b w p, (p, pair, accept_pair-IsSignedIn b w p kept))

  pub keep_or_revoke-ends :
      fields result ≡ ok f
      → Kept w f (keep_or_revoke (alone b) result w).0 (keep_or_revoke (alone b) result w).1
        ⊎ GivenUp w f (keep_or_revoke (alone b) result w).0 (keep_or_revoke (alone b) result w).1
  keep_or_revoke-ends read = elim (Option-cases (issued f)) [
    | inl nothing ↦
        inr (keep_or_revoke-GivenUp invalid_session w read (accept-incomplete read nothing) refl)
    | inr (p, pair) ↦ elim (Result-cases (accept_pair (alone b) p w).0) [
      | inl kept ↦ inl (keep_or_revoke-Kept p read pair kept)
      | inr (e, failed) ↦ inr (
          keep_or_revoke-GivenUp e (accept_pair (alone b) p w).1 read
            (rw (accept-pair p read pair) (ground arith)) (accept_pair-hides b w p e failed).2)
    ]
  ]

-- A sign-in that the service answers with an object. Either the answer is complete and could be
-- stored: its tokens and its user are then those of the session. Or the sign-in fails: the token of
-- the answer was sent to the service to be revoked, and no identity is left.
pub establish-ends :
    (b : Backing) (w : World) (path : String) (body : Body) (result : Payload) (f : SessionResponse)
    → b.reply path (posting body) (sent path (posting body) ∷ w.trace) ≡ ok result
    → fields result ≡ ok f
    → let w' = record w {
      identity_version = w.identity_version + 1;
      trace = cache_cleared ∷ sent path (posting body) ∷ w.trace;
    } in
      let r = establish (alone b) path body w in Kept w' f r.0 r.1 ⊎ GivenUp w' f r.0 r.1
unfolding establish send clear_cache
establish-ends b w path body result f answered read =
    rw answered (keep_or_revoke-ends b _ result f read)

-- A sign-in that the service answers with no object (status 204, or `data: null`) throws while it
-- reads the answer and again while it revokes it: the old identity stays signed in, with its cache
-- cleared and the answers to its calls no longer counted.
pub establish-absent :
    (b : Backing) (w : World) (path : String) (body : Body)
    → b.reply path (posting body) (sent path (posting body) ∷ w.trace) ≡ ok absent
    → establish (alone b) path body w ≡ (
      err type_error,
      record w {
        identity_version = w.identity_version + 1;
        trace = cache_cleared ∷ sent path (posting body) ∷ w.trace;
      },
    )
unfolding establish send clear_cache keep_or_revoke accept revoke
establish-absent b w path body answered = rw answered refl
