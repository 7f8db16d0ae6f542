-- ===== src/Mobile/LiveActivity/Service/Follow.antt =====
-- What a call to follow an event leaves behind.
use unity_runn.Prelude.{ℕ, ◌+◌, ◌≡◌, refl, arith, String, true, inr, truthy}
use unity_runn.Exec.{Failure, ok, err, branch, ◌>>=◌, raise}
use unity_runn.Exec.Keeps.{
  Keeps, Keeps-bind, Keeps-branch, Keeps-catching, Keeps-raise, keeps_rules,
}
use unity_runn.Mobile.LiveActivity.Bridge.{Started}
use unity_runn.Mobile.LiveActivity.Service.{
  Service, Calls, RaceData, FollowOptions, begin_start, end_start, wrap, wrapped, path, follow_body,
  unfollow, follow, start_native, start, not_available,
}

module _ {S : Type 0} (c : Calls S) (data_ : RaceData) (opts : FollowOptions) (w : Service S) where
  -- The states in which the first two awaited calls of `start` settle
  abbrev pub checked : Service S
  checked = (c.is_supported (begin_start w)).1

  abbrev pub shown : Service S
  shown = (c.start data_ checked).1

  start-follow :
      (n : Started)
      → (c.is_supported (begin_start w)).0 ≡ ok true
      → (c.start data_ checked).0 ≡ ok n
      → start c data_ opts w
        ≡ (wrapped (follow c data_ opts n shown).0, end_start (follow c data_ opts n shown).1)
  unfolding start start_native
  start-follow n supported started = rw (supported, started) refl

-- Where the phone shows the activity and the service refuses to follow the event, the activity is ended
-- before the error is reported, and a failure of that end is dropped.
pub start-unfollows :
    {S : Type 0} (c : Calls S) (data_ : RaceData) (opts : FollowOptions) (w : Service S)
    (n : Started) (e : Failure)
    → (c.is_supported (begin_start w)).0 ≡ ok true
    → (c.start data_ (checked c data_ opts w)).0 ≡ ok n
    → truthy n.activity_id ≡ true
    → (c.post path (follow_body data_ opts n) (shown c data_ opts w)).0 ≡ err e
    → start c data_ opts w ≡ (
      inr (wrap e),
      end_start
          (c.end n.activity_id (c.post path (follow_body data_ opts n) (shown c data_ opts w)).1).1,
    )
unfolding follow unfollow
start-unfollows c data_ opts w n e supported started named refused =
    rw (start-follow c data_ opts w n supported started) (rw (refused, named) refl)

module _ {S : Type 0} (c : Calls S) (P : Service S → Type 0) where
  unfollow-Keeps :
      (n : Started) (e : Failure) → ((id : String) → Keeps P (c.end id)) → Keeps P (unfollow c n e)
  unfolding unfollow
  unfollow-Keeps n e ends = search (keeps_rules, ends) depth 8

  follow-Keeps :
      (data_ : RaceData) (opts : FollowOptions) (n : Started)
      → Keeps P (c.post path (follow_body data_ opts n))
      → ((id : String) → Keeps P (c.end id))
      → Keeps P (follow c data_ opts n)
  unfolding follow
  follow-Keeps data_ opts n posts ends =
      Keeps-catching _ (unfollow c n) posts (λ e. unfollow-Keeps n e ends)

  start_native-Keeps :
      (data_ : RaceData) (opts : FollowOptions)
      → Keeps P c.is_supported
      → Keeps P (c.start data_)
      → ((n : Started) → Keeps P (c.post path (follow_body data_ opts n)))
      → ((id : String) → Keeps P (c.end id))
      → Keeps P (start_native c data_ opts)
  unfolding start_native
  start_native-Keeps data_ opts checks shows posts ends =
      let followed =
        Keeps-bind (c.start data_) (follow c data_ opts) shows
          (λ n. follow-Keeps data_ opts n (posts n) ends) in
      Keeps-bind c.is_supported
        (λ supported.
          branch supported (c.start data_ >>= follow c data_ opts) (raise not_available))
        checks (λ supported. Keeps-branch supported _ _ followed (Keeps-raise not_available))

-- A start that other tasks do not overlap counts itself in and out again, however it ends.
pub start-balanced :
    {S : Type 0} (c : Calls S) (data_ : RaceData) (opts : FollowOptions) (w : Service S)
    → ((n : ℕ) → Keeps (λ v. v.starts_in_flight ≡ n) c.is_supported)
    → ((n : ℕ) → Keeps (λ v. v.starts_in_flight ≡ n) (c.start data_))
    → ((n : ℕ) (n' : Started)
        → Keeps (λ v. v.starts_in_flight ≡ n) (c.post path (follow_body data_ opts n')))
    → ((n : ℕ) (id : String) → Keeps (λ v. v.starts_in_flight ≡ n) (c.end id))
    → (start c data_ opts w).1.starts_in_flight ≡ w.starts_in_flight
unfolding start
start-balanced c data_ opts w checks shows posts ends =
    let n = w.starts_in_flight + 1 in
    omega (
      arith,
      (start_native-Keeps c (λ v. v.starts_in_flight ≡ n) data_ opts (checks n) (shows n) (posts n)
            (ends n)).at
          (begin_start w) refl,
    )
