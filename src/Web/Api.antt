-- ===== src/Web/Api.antt =====
-- frontend/src/lib/api.ts: the requests of the web site, with the access token in memory and the single
-- flight of the refresh. What `fetch` and other tasks do during an await is a parameter. The fields
-- `method` and `path` of an error, which are the arguments of the request, are left out.
pub mod Session
pub mod Redirects
pub mod Bounds
pub mod Calls
pub mod Transfers
use Prim.Native.String
use unity_runn.Prelude.{
  ℕ, String, Option, none, some, List, [], ◌∷◌, Bool, true, false, not, ◌&&◌, leb, ◌==◌, truthy,
  or_else, if◌then◌else◌,
}
use unity_runn.Exec.{
  ApiError, Failure, api, Result, ok, err, Exec, pure, raise, lift, gets, modify, catching, finally,
  branch, when, ◌>>=◌, ◌>>◌,
}

pub data Method : Type 0 where
  get post patch delete : Method

pub data Credentials : Type 0 where
  include omit : Credentials

-- A body by its JSON text, and whether its value counts as true
pub record Body : Type 0 where
  pub json : String
  pub counts : Bool

pub record RequestOptions : Type 0 where
  pub method : Option Method
  pub body : Option Body
  pub credentials : Option Credentials
  pub skip_auth_retry : Bool
  pub suppress_auth_redirect : Bool

-- The value of a request: none, an object by its `access_token`, or another value.
pub data Payload : Type 0 where
  nothing : Payload
  tokens : Option String → Payload
  other : String → Payload

-- A JSON answer: the texts that it holds of an error, its `data` if that is defined, and itself.
pub record Document : Type 0 where
  pub error_message : Option String
  pub error_code : Option String
  pub message : Option String
  pub content : Option Payload
  pub whole : Payload

-- `json` is what `await res.json()` gives, and `ok none` where the answer is no JSON or is `null`.
pub record Response : Type 0 where
  pub status : ℕ
  pub status_text : String
  pub json : Result (Option Document)

pub record HttpCall : Type 0 where
  pub url : String
  pub method : Method
  pub headers : List (String × String)
  pub body : Option String
  pub credentials : Credentials

-- The variables of the module, where the page was sent to, and the calls of `fetch`, the last one first.
pub record Page : Type 0 where
  pub access_token : String
  pub refreshing : Bool
  pub assigned : List String
  pub trace : List HttpCall

abbrev pub W : Type 0 → Type 0
W A = Exec Page A

pub record Env : Type 0 where
  pub base_url : String
  -- `typeof window !== "undefined"`
  pub in_browser : Bool
  pub fetch : HttpCall → W Response
  -- what a caller gets that awaits a refresh of another one
  pub join_refresh : W Bool
  -- the encoded path and search of the page
  pub here : String
  pub decimal : ℕ → String

abbrev pub nonempty : Option String → String → String
nonempty none d = d
nonempty (some s) d = if truthy s then s else d

abbrev pub is_ok : Response → Bool
is_ok r = leb 200 r.status && leb r.status 299

abbrev message_of : Option Document → String → String
message_of none d = d
message_of (some doc) d = nonempty doc.error_message (nonempty doc.message d)

abbrev code_of : Option Document → String
code_of none = "API_ERROR"
code_of (some doc) = nonempty doc.error_code "API_ERROR"

-- `data?.data !== undefined ? data.data : data`
abbrev pub value_of : Option Document → Payload
value_of none = nothing
value_of (some doc) = or_else doc.content doc.whole

abbrev counts : Option Body → Bool
counts none = false
counts (some b) = b.counts

abbrev text_of : Option Body → Option String
text_of none = none
text_of (some b) = some b.json

abbrev pub token_of : Payload → String
token_of (tokens t) = nonempty t ""
token_of _ = ""

unfoldable pub get_headers : Bool → String → List (String × String)
get_headers has_body token =
    let bearer : List (String × String) =
      if truthy token then ("Authorization", String.◌++◌ "Bearer " token) ∷ [] else [] in
    if has_body then ("Content-Type", "application/json") ∷ bearer else bearer

-- The options of the requests that begin and end a session; `include` is the default too.
abbrev pub posting : Option Body → RequestOptions
posting body = record {
  method = some post;
  body = body;
  credentials = some include;
  skip_auth_retry = true;
  suppress_auth_redirect = false;
}

abbrev pub refresh_path : String
refresh_path = "/api/v1/auth/refresh"

module _ (env : Env) where
  abbrev pub status_error : Response → Option Document → Failure
  status_error r data_ = api (record {
    message = message_of data_ (
        String.◌++◌ "API error: "
          (String.◌++◌ (env.decimal r.status) (String.◌++◌ " " r.status_text)));
    status = r.status;
    code = code_of data_;
  })

  unfoldable pub handle_response : Response → W Payload
  handle_response r = do
    data_ ← lift r.json
    branch (is_ok r) (pure (value_of data_)) (raise (status_error r data_))

  abbrev pub http_call : String → RequestOptions → String → HttpCall
  http_call path o token = record {
    url = String.◌++◌ env.base_url path;
    method = or_else o.method get;
    headers = get_headers (counts o.body) token;
    body = text_of o.body;
    credentials = or_else o.credentials include;
  }

  unfoldable pub do_fetch : String → RequestOptions → W Response
  do_fetch path o w =
      let c = http_call path o w.access_token in env.fetch c (record w { trace = c ∷ w.trace })

  -- A request with `skipAuthRetry`
  unfoldable pub request_once : String → RequestOptions → W Payload
  request_once path o = do_fetch path o >>= handle_response

  -- `if (result?.access_token && typeof window !== "undefined") accessToken = result.access_token`
  unfoldable pub keep_token : Payload → Page → Page
  keep_token p w =
      if truthy (token_of p) && env.in_browser then record w { access_token = token_of p } else w

  unfoldable pub clear_token : Page → Page
  clear_token w = if env.in_browser then record w { access_token = "" } else w

  unfoldable pub signing_in : String → Option Body → W Payload
  signing_in path body = do
    result ← request_once path (posting body)
    modify (keep_token result)
    pure result

  unfoldable pub refresh_token : W Payload
  refresh_token = signing_in refresh_path none

  unfoldable pub run_refresh : W Bool
  run_refresh = catching (do refresh_token; pure true) (λ error. do modify clear_token; pure false)

  unfoldable pub try_refresh_token : W Bool
  try_refresh_token w =
      if w.refreshing
      then env.join_refresh w
      else finally run_refresh (λ u. record u { refreshing = false })
          (record w { refreshing = true })

  unfoldable pub assign_login : Page → Page
  assign_login w = record w { assigned = String.◌++◌ "/auth/login?redirect=" env.here ∷ w.assigned }

  -- After a 401
  unfoldable pub retry : String → RequestOptions → Response → W Response
  retry path o first = do
    refreshed ← try_refresh_token
    branch refreshed (do_fetch path o)
        (do when (not o.suppress_auth_redirect) (modify assign_login); pure first)

  unfoldable pub request : String → RequestOptions → W Payload
  request path o = do
    first ← do_fetch path o
    last ←
        branch (first.status == 401 && (not o.skip_auth_retry && env.in_browser))
          (retry path o first) (pure first)
    handle_response last

  unfoldable pub login : Body → W Payload
  login body = signing_in "/api/v1/auth/login" (some body)

  unfoldable pub register : Body → W Payload
  register body = signing_in "/api/v1/auth/register" (some body)

  unfoldable pub logout : W (Unit {0})
  logout = do
    finally
        (catching (do request_once "/api/v1/auth/logout" (posting none); pure tt)
          (λ error. pure tt))
        clear_token
