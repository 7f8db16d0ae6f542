-- ===== src/Web/Api/Bounds.antt =====
-- How often a request calls the service.
use unity_runn.Prelude.{none, ℕ, ◌+◌, ◌≤◌, length, String, ◌≡◌, arith, true, Bool-cases, inl, inr}
use unity_runn.Exec.{Result-split}
use unity_runn.Web.Api.{
  Payload, Page, Env, Response, HttpCall, RequestOptions, posting, refresh_path, do_fetch,
  handle_response, request, run_refresh, try_refresh_token, signing_in, request_once, refresh_token,
  keep_token, clear_token, assign_login, retry,
}

-- Other tasks call nothing while a request waits.
pub record IsAlone (env : Env) : Type 0 where
  pub fetch : (c : HttpCall) (w : Page) → (env.fetch c w).1.trace ≡ w.trace
  pub join : (w : Page) → (env.join_refresh w).1.trace ≡ w.trace

abbrev pub calls : Page → ℕ
calls w = length w.trace

module _ (env : Env) (only : IsAlone env) where
  do_fetch-calls :
      (path : String) (o : RequestOptions) (w : Page)
      → calls (do_fetch env path o w).1 ≡ calls w + 1
  unfolding do_fetch
  do_fetch-calls path o w = grind (arith, only.fetch)

  pub handle_response-calls :
      (r : Response) (w : Page) → calls (handle_response env r w).1 ≡ calls w
  unfolding handle_response
  handle_response-calls r w = ground arith

  request_once-calls :
      (path : String) (o : RequestOptions) (w : Page)
      → calls (request_once env path o w).1 ≤ calls w + 1
  unfolding request_once
  request_once-calls path o w = grind (arith, do_fetch-calls, handle_response-calls)

  keep_token-calls : (p : Payload) (w : Page) → calls (keep_token env p w) ≡ calls w
  unfolding keep_token
  keep_token-calls p w = ground arith

  clear_token-calls : (w : Page) → calls (clear_token env w) ≡ calls w
  unfolding clear_token
  clear_token-calls w = ground arith

  run_refresh-calls : (w : Page) → calls (run_refresh env w).1 ≤ calls w + 1
  unfolding run_refresh refresh_token signing_in
  run_refresh-calls w =
      let asked = request_once env refresh_path (posting none) w in
      let once = request_once-calls refresh_path (posting none) w in
      elim (Result-split asked.0) [
        | inl (p, e) ↦ rw e (omega (arith, once, keep_token-calls p asked.1))
        | inr (x, e) ↦ rw e (omega (arith, once, clear_token-calls asked.1))
      ]

  pub try_refresh_token-calls : (w : Page) → calls (try_refresh_token env w).1 ≤ calls w + 1
  unfolding try_refresh_token
  try_refresh_token-calls w = elim (Bool-cases w.refreshing) [
    | inl e ↦ rw e (grind (arith, only.join))
    | inr e ↦ rw e (omega (arith, run_refresh-calls (record w { refreshing = true })))
  ]

  retry-calls :
      (path : String) (o : RequestOptions) (first : Response) (w : Page)
      → calls (retry env path o first w).1 ≤ calls w + 2
  unfolding retry assign_login
  retry-calls path o first w =
      let u = (try_refresh_token env w).1 in
      ground (arith, try_refresh_token-calls w, do_fetch-calls path o u)

-- A request that other tasks do not overlap calls the service three times at most: twice for itself and
-- once for a refresh.
pub request-calls_thrice :
    (env : Env) (only : IsAlone env) (path : String) (o : RequestOptions) (w : Page)
    → calls (request env path o w).1 ≤ calls w + 3
unfolding request
request-calls_thrice env only path o w =
    let first = do_fetch env path o w in
    grind (
      arith,
      do_fetch-calls env only path o w,
      retry-calls env only path o,
      handle_response-calls env only,
    )
