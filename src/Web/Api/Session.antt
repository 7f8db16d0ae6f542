-- ===== src/Web/Api/Session.antt =====
-- The access token of the web site.
use unity_runn.Prelude.{String, none, ◌≡◌, arith, true, false, ◌⊎◌, truthy, if◌then◌else◌, inl, inr}
use unity_runn.Exec.{Failure, ok, err, Result-split}
use unity_runn.Web.Api.{
  Payload, Page, Env, RequestOptions, token_of, posting, refresh_path, request_once, request,
  keep_token, clear_token, signing_in, refresh_token, run_refresh, try_refresh_token, logout,
}

-- In a browser, signing out succeeds and leaves no access token, whatever the service answers.
pub logout-clears :
    (env : Env) (w : Page)
    → env.in_browser ≡ true
    → ((logout env w).0 ≡ ok tt) × ((logout env w).1.access_token ≡ "")
unfolding logout clear_token
logout-clears env w browser = ground arith

-- A request that may not refresh is one call of the service: the refresh, which is such a request, never
-- begins another refresh, and neither does a request of the server.
pub request-once :
    (env : Env) (path : String) (o : RequestOptions) (w : Page)
    → ((o.skip_auth_retry ≡ true) ⊎ (env.in_browser ≡ false))
    → request env path o w ≡ request_once env path o w
unfolding request request_once
request-once env path o w h = ground arith

-- A refresh that a caller begins is over when the caller goes on, ends without a throw, and says whether
-- the service answered; where it did not, the browser keeps no access token, and where it answered with
-- a token the browser holds that one.
pub try_refresh_token-decides :
    (env : Env) (w : Page)
    → w.refreshing ≡ false
    → env.in_browser ≡ true
    → let r = try_refresh_token env w in
      let asked = request_once env refresh_path (posting none) (record w { refreshing = true }) in
      (r.1.refreshing ≡ false)
      × (((e : Failure) × (asked.0 ≡ err e) × (r.0 ≡ ok false) × (r.1.access_token ≡ ""))
          ⊎ ((p : Payload) × (asked.0 ≡ ok p)
              × (r.0 ≡ ok true)
              × (r.1.access_token
                  ≡ (if truthy (token_of p) then token_of p else asked.1.access_token))))
unfolding try_refresh_token run_refresh refresh_token signing_in keep_token clear_token
try_refresh_token-decides env w idle browser =
    let asked = request_once env refresh_path (posting none) (record w { refreshing = true }) in
    elim (Result-split asked.0) [
      | inl (p, e) ↦ (ground arith, inr (p, e, ground arith, ground arith))
      | inr (x, e) ↦ (ground arith, inl (x, e, ground arith, ground arith))
    ]
