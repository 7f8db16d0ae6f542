-- ===== src/Mobile/Api/Client/Answers.antt =====
-- What the transport makes of an answer, and what it holds while it waits.
use unity_runn.Prelude.{String, ◌≡◌, some, true, ◌⊎◌, arith, ◌↔◌, ◌≢◌, refl}
use text.Mathlib.Text.{starts_with}
use unity_runn.Exec.{ok}
use unity_runn.Mobile.Api.{Payload, absent, RequestOptions}
use unity_runn.Mobile.Api.Client.{
  Response, Settled, responded, rejected, Fetcher, Held, Signal, is_ok, content_of, receive, settle,
  http_request, perform, transport,
}

module _ (f : Fetcher) (origin path : String) (o : RequestOptions) (signal : Signal)
    (h : Held) where
  -- However a call ends, it leaves no timer and no listener behind.
  pub transport-releases : (transport f origin path o signal h).1 ≡ h
  unfolding transport perform
  transport-releases = ground arith

abbrev pub Delivers : Response → Payload → Type 0
Delivers r v =
    (is_ok r.status ≡ true)
    × (((r.status ≡ 204) × (v ≡ absent)) ⊎ ((r.status ≢ 204) × (content_of r.document ≡ some v)))

receive_lem : (f : Fetcher) (r : Response) (v : Payload) → receive f r ≡ ok v → Delivers r v
unfolding receive
receive_lem f r v h = ground arith

receive-Delivers : (f : Fetcher) (r : Response) (v : Payload) → Delivers r v → receive f r ≡ ok v
unfolding receive
receive-Delivers f r v h = ground arith

settle-ok :
    (f : Fetcher) (s : Settled) (v : Payload)
    → settle f s ≡ ok v
    → (r : Response) × (s ≡ responded r) × Delivers r v
unfolding settle
settle-ok f (responded r) v h = (r, refl, receive_lem f r v h)
settle-ok f (rejected e) v h = cc

perform-settle :
    (f : Fetcher) (origin path : String) (o : RequestOptions) (signal : Signal) (h : Held)
    (v : Payload)
    → ((transport f origin path o signal h).0 ≡ ok v) ↔ (
        (starts_with path "/api/v1/" ≡ true)
        × (settle f (f.exchange (http_request f origin path o signal)).settled ≡ ok v))
unfolding transport perform
perform-settle f origin path o signal h v = ground arith

-- A value is returned exactly for a path of the API and an answer with a status from 200 to 299: for
-- status 204 the value is `undefined`, and for another one it is the `data` of the answer, which has to
-- be there.
pub transport-Delivers :
    (f : Fetcher) (origin path : String) (o : RequestOptions) (signal : Signal) (h : Held)
    (v : Payload)
    → ((transport f origin path o signal h).0 ≡ ok v) ↔ (
        (starts_with path "/api/v1/" ≡ true)
        × ((r : Response) × ((f.exchange (http_request f origin path o signal)).settled
              ≡ responded r)
            × Delivers r v))
transport-Delivers f origin path o signal h v =
    let (to, from) = perform-settle f origin path o signal h v in
    (
      (λ p. ((to p).0, settle-ok f _ v (to p).1)),
      (λ (api_path, (r, answered, delivers)).
          from (api_path, rw answered (unfold settle in receive-Delivers f r v delivers))),
    )
