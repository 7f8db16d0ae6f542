-- ===== src/Mobile/Session/Alone/Endings.antt =====
-- How the operations of a session end when no other task is at work.
use unity_runn.Prelude.{◌+◌, String, ◌≡◌, none, some, ◌∷◌, true, false, arith, ◌⊎◌, truthy}
use unity_runn.Exec.{Failure, ok, err}
use unity_runn.Mobile.Api.{refresh_token}
use unity_runn.Mobile.Session.State.{sent, guest, authenticated, unavailable, World}
use unity_runn.Mobile.Session.Identity.{
  send, accept_pair, forget, emit, clear_cache, storage_error, is_unauthorized, Pair,
}
use unity_runn.Mobile.Session.Operations.{rotate, rotate_token, posting, refresh_path}
use unity_runn.Mobile.Session.Alone.{Backing, alone}

-- No identity is left in memory, and answers to the old one no longer count.
pub record IsForgotten (w u : World) : Type 0 where
  pub token : u.access_token ≡ ""
  pub user : u.state.user ≡ none
  pub version : u.identity_version ≡ w.identity_version + 1

abbrev pub IsCleared : World → Type 0
IsCleared u = (u.state.status ≡ guest) × (u.stored ≡ none)

module _ (b : Backing) (w : World) where
  pub forget-IsForgotten : IsForgotten w (forget (alone b) w).1
  unfolding forget emit clear_cache
  forget-IsForgotten = ground arith

  pub forget-IsCleared :
      (((forget (alone b) w).0 ≡ ok tt) × IsCleared (forget (alone b) w).1)
      ⊎ (((forget (alone b) w).0 ≡ err storage_error)
          × ((forget (alone b) w).1.state.status ≡ unavailable))
  unfolding forget emit clear_cache
  forget-IsCleared = ground arith

-- A refresh that fails for a reason other than a refused token changes nothing but the record of
-- calls: the stored token, the access token and the identity stay, and the error is passed on.
pub rotate-keeps_session :
    (b : Backing) (w : World) (t : String) (e : Failure)
    → w.stored ≡ some t
    → truthy t ≡ true
    → b.get_fault w.trace ≡ none
    → b.reply refresh_path
        (posting (refresh_token (some t)))
        (sent refresh_path (posting (refresh_token (some t))) ∷ w.trace)
      ≡ err e
    → is_unauthorized e ≡ false
    → rotate (alone b) w
      ≡ (err e, record w { trace = sent refresh_path (posting (refresh_token (some t))) ∷ w.trace })
unfolding rotate rotate_token send
rotate-keeps_session b w t e stored present readable refused other = ground arith

-- What an accepted answer leaves: its tokens, its user, and no other identity.
pub record IsSignedIn (p : Pair) (u : World) : Type 0 where
  pub status : u.state.status ≡ authenticated
  pub user : u.state.user ≡ some p.user
  pub access : u.access_token ≡ p.access
  pub stored : u.stored ≡ some p.refresh

module _ (b : Backing) (w : World) where
  pub accept_pair-IsSignedIn :
      (p : Pair)
      → (accept_pair (alone b) p w).0 ≡ ok tt
      → IsSignedIn p (accept_pair (alone b) p w).1
  unfolding accept_pair emit
  accept_pair-IsSignedIn p h = ground arith

  -- A pair that could not be stored is not exposed.
  pub accept_pair-hides :
      (p : Pair) (e : Failure)
      → (accept_pair (alone b) p w).0 ≡ err e
      → ((accept_pair (alone b) p w).1.access_token ≡ w.access_token)
        × ((accept_pair (alone b) p w).1.state ≡ w.state)
        × ((accept_pair (alone b) p w).1.identity_version ≡ w.identity_version)
  unfolding accept_pair emit
  accept_pair-hides p e h = ground arith

  pub identity_version-accept_pair :
      (p : Pair) → (accept_pair (alone b) p w).1.identity_version ≡ w.identity_version
  unfolding accept_pair emit
  identity_version-accept_pair p = ground arith
