-- ===== src/Web/Api/Redirects.antt =====
-- When a request sends the page to the sign-in.
use Prim.Native.String
use unity_runn.Prelude.{
  String, none, ◌∷◌, ◌≡◌, arith, Bool, true, false, ◌⊎◌, ◌&&◌, ◌==◌, not, Bool-cases, inl, inr, ap,
  ◌∙◌,
}
use unity_runn.Exec.{Failure, ok, err, Result-split}
use unity_runn.Web.Api.{
  Payload, Page, Env, Response, HttpCall, RequestOptions, posting, refresh_path, do_fetch,
  handle_response, request, run_refresh, try_refresh_token, signing_in, request_once, refresh_token,
  keep_token, clear_token, assign_login, retry,
}

-- Other tasks do not leave the page while a request waits.
pub record IsStill (env : Env) : Type 0 where
  pub fetch : (c : HttpCall) (w : Page) → (env.fetch c w).1.assigned ≡ w.assigned
  pub join : (w : Page) → (env.join_refresh w).1.assigned ≡ w.assigned

module _ (env : Env) (still : IsStill env) where
  do_fetch-assigned :
      (path : String) (o : RequestOptions) (w : Page)
      → (do_fetch env path o w).1.assigned ≡ w.assigned
  unfolding do_fetch
  do_fetch-assigned path o w = grind (arith, still.fetch)

  handle_response-assigned :
      (r : Response) (w : Page) → (handle_response env r w).1.assigned ≡ w.assigned
  unfolding handle_response
  handle_response-assigned r w = ground arith

  request_once-assigned :
      (path : String) (o : RequestOptions) (w : Page)
      → (request_once env path o w).1.assigned ≡ w.assigned
  unfolding request_once
  request_once-assigned path o w = grind (arith, do_fetch-assigned, handle_response-assigned)

  keep_token-assigned : (p : Payload) (w : Page) → (keep_token env p w).assigned ≡ w.assigned
  unfolding keep_token
  keep_token-assigned p w = ground arith

  clear_token-assigned : (w : Page) → (clear_token env w).assigned ≡ w.assigned
  unfolding clear_token
  clear_token-assigned w = ground arith

  run_refresh-assigned : (w : Page) → (run_refresh env w).1.assigned ≡ w.assigned
  unfolding run_refresh refresh_token signing_in
  run_refresh-assigned w =
      let asked = request_once env refresh_path (posting none) w in
      let once = request_once-assigned refresh_path (posting none) w in
      elim (Result-split asked.0) [
        | inl (p, e) ↦ rw e (keep_token-assigned p asked.1 ∙ once)
        | inr (x, e) ↦ rw e (clear_token-assigned asked.1 ∙ once)
      ]

  try_refresh_token-assigned : (w : Page) → (try_refresh_token env w).1.assigned ≡ w.assigned
  unfolding try_refresh_token
  try_refresh_token-assigned w = elim (Bool-cases w.refreshing) [
    | inl e ↦ grind (arith, still.join)
    | inr e ↦ rw e (run_refresh-assigned (record w { refreshing = true }))
  ]

  -- The page after a retry is the one before, or the sign-in where the refresh failed.
  retry-assigned :
      (path : String) (o : RequestOptions) (first : Response) (w : Page)
      → ((retry env path o first w).1.assigned ≡ w.assigned)
        ⊎ ((o.suppress_auth_redirect ≡ false)
            × ((try_refresh_token env w).0 ≡ ok false)
            × ((retry env path o first w).1.assigned
                ≡ String.◌++◌ "/auth/login?redirect=" env.here ∷ w.assigned))
  unfolding retry assign_login
  retry-assigned path o first w =
      let u = (try_refresh_token env w).1 in
      ground (arith, try_refresh_token-assigned w, do_fetch-assigned path o u)

abbrev pub may_refresh : Env → RequestOptions → Response → Bool
may_refresh env o r = r.status == 401 && (not o.skip_auth_retry && env.in_browser)

module _ (env : Env) (still : IsStill env) (path : String) (o : RequestOptions) (w : Page) where
  abbrev first : Page
  first = (do_fetch env path o w).1

  request-plain :
      (r : Response)
      → (do_fetch env path o w).0 ≡ ok r
      → may_refresh env o r ≡ false
      → (request env path o w).1.assigned ≡ w.assigned
  unfolding request
  request-plain r e stays =
      rw (e, stays)
        (handle_response-assigned env still r first ∙ do_fetch-assigned env still path o w)

  request-retry :
      (r : Response)
      → (do_fetch env path o w).0 ≡ ok r
      → may_refresh env o r ≡ true
      → (request env path o w).1.assigned ≡ (retry env path o r first).1.assigned
  unfolding request
  request-retry r e refreshes = grind (arith, handle_response-assigned env still)

  request-failed :
      (x : Failure)
      → (do_fetch env path o w).0 ≡ err x
      → (request env path o w).1.assigned ≡ w.assigned
  unfolding request
  request-failed x e = rw e (do_fetch-assigned env still path o w)

-- A request sends the page to the sign-in at most once, and only in a browser, after an answer 401 and a
-- refresh that failed, where the request may refresh and its caller has not ruled it out.
pub request-assigns :
    (env : Env) (still : IsStill env) (path : String) (o : RequestOptions) (w : Page)
    → ((request env path o w).1.assigned ≡ w.assigned)
      ⊎ ((env.in_browser ≡ true)
          × (o.skip_auth_retry ≡ false)
          × (o.suppress_auth_redirect ≡ false)
          × ((r : Response) × ((do_fetch env path o w).0 ≡ ok r) × (r.status ≡ 401))
          × ((try_refresh_token env (do_fetch env path o w).1).0 ≡ ok false)
          × ((request env path o w).1.assigned
              ≡ String.◌++◌ "/auth/login?redirect=" env.here ∷ w.assigned))
request-assigns env still path o w = elim (Result-split (do_fetch env path o w).0) [
  | inr (x, e) ↦ inl (request-failed env still path o w x e)
  | inl (r, e) ↦ elim (Bool-cases (may_refresh env o r)) [
    | inr stays ↦ inl (request-plain env still path o w r e stays)
    | inl refreshes ↦
        let through = request-retry env still path o w r e refreshes in
        let same = do_fetch-assigned env still path o w in
        elim (retry-assigned env still path o r (do_fetch env path o w).1) [
          | inl kept ↦ inl (through ∙ kept ∙ same)
          | inr (loud, failed, sent) ↦ inr (
            ground arith,
            ground arith,
            loud,
            (r, e, ground arith),
            failed,
            through ∙ sent ∙ ap (λ rest. String.◌++◌ "/auth/login?redirect=" env.here ∷ rest) same,
          )
        ]
  ]
]
