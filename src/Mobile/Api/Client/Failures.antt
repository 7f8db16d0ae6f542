-- ===== src/Mobile/Api/Client/Failures.antt =====
-- The errors of the transport.
use unity_runn.Prelude.{String, ◌≡◌, true, inl, inr, Bool-cases, arith, ◌≢◌, refl, if◌then◌else◌}
use text.Mathlib.Text.{starts_with}
use unity_runn.Exec.{ApiError, Failure, api, err, catching, lift, raise}
use unity_runn.Mobile.Api.{RequestOptions}
use unity_runn.Mobile.Api.Client.{
  Exchange, Response, Settled, responded, rejected, Fetcher, Held, Signal, cancelled_error,
  timeout_error, network_error, receive, settle, translate, http_request, perform, transport,
}

-- Every failure of the transport is an `ApiError`.
pub transport-ApiError :
    (f : Fetcher) (origin path : String) (o : RequestOptions) (signal : Signal) (h : Held)
    (e : Failure)
    → (transport f origin path o signal h).0 ≡ err e
    → (a : ApiError) × (e ≡ api a)
unfolding transport perform translate
transport-ApiError f origin path o signal h e p = ground arith

abbrev IsForeign : Failure → Type 0
IsForeign (api e) = ⊥
IsForeign _ = Unit

-- A call that `fetch` rejected is reported as cancelled where the caller had aborted it, else as a
-- timeout where the timer had, else as a network error.
pub transport-rejected :
    (f : Fetcher) (origin path : String) (o : RequestOptions) (signal : Signal) (h : Held)
    (e : Failure)
    → starts_with path "/api/v1/" ≡ true
    → (f.exchange (http_request f origin path o signal)).settled ≡ rejected e
    → IsForeign e
    → (transport f origin path o signal h).0
      ≡ err (
          if (f.exchange (http_request f origin path o signal)).cancelled
          then cancelled_error
          else if (f.exchange (http_request f origin path o signal)).timed_out
          then timeout_error
          else network_error)
unfolding transport perform translate settle
transport-rejected f origin path o signal h (api a) p q foreign_error = elim foreign_error [ ]
transport-rejected f origin path o signal h _ p q foreign_error = ground arith

answered-status :
    (f : Fetcher) (x : Exchange) (r : Response) (h : Held) (a : ApiError)
    → (catching (lift (receive f r)) (λ e. raise (translate f x e)) h).0 ≡ err (api a)
    → r.status ≡ a.status
unfolding receive translate
answered-status f x r h a p = ground arith

translate-status :
    (f : Fetcher) (x : Exchange) (e : Failure) (a : ApiError)
    → IsForeign e
    → translate f x e ≡ api a
    → a.status ≡ 0
unfolding translate
translate-status f x (api b) a foreign_error h = elim foreign_error [ ]
translate-status f x _ a foreign_error h = ground arith

settled-status :
    (f : Fetcher) (x : Exchange) (s : Settled) (h : Held) (a : ApiError)
    → ((e : Failure) → s ≡ rejected e → IsForeign e)
    → (catching (lift (settle f s)) (λ e. raise (translate f x e)) h).0 ≡ err (api a)
    → a.status ≢ 0
    → (r : Response) × (s ≡ responded r) × (r.status ≡ a.status)
unfolding settle
settled-status f x (responded r) h a fetches p nonzero = (r, refl, answered-status f x r h a p)
settled-status f x (rejected e) h a fetches p nonzero =
    absurd (nonzero (translate-status f x e a (fetches e refl) (ground arith)))

-- Where `fetch` rejects with its own errors only, an error with a status is an answer of the service
-- with that status: a timeout, a cancelled call or a lost connection is never taken for a refusal.
pub transport-status :
    (f : Fetcher) (origin path : String) (o : RequestOptions) (signal : Signal) (h : Held)
    (a : ApiError)
    → ((e : Failure)
        → (f.exchange (http_request f origin path o signal)).settled ≡ rejected e
        → IsForeign e)
    → (transport f origin path o signal h).0 ≡ err (api a)
    → a.status ≢ 0
    → (r : Response) × ((f.exchange (http_request f origin path o signal)).settled ≡ responded r)
      × (r.status ≡ a.status)
unfolding transport perform
transport-status f origin path o signal h a fetches p nonzero =
    let x = f.exchange (http_request f origin path o signal) in
    elim (Bool-cases (starts_with path "/api/v1/")) [
      | inl of_api ↦ settled-status f x x.settled h a fetches (ground arith) nonzero
      | inr other ↦ absurd (nonzero (ground arith))
    ]
