-- ===== src/Web/Api/Transfers.antt =====
-- frontend/src/lib/api.ts: `upload` and `download`, which may always refresh the session. A form's data is
-- what the browser encodes of it.
pub mod Limits
use Prim.Native.String
use unity_runn.Prelude.{
  ℕ, String, Option, none, some, ◌∷◌, Bool, true, false, ◌&&◌, ◌==◌, if◌then◌else◌,
}
use unity_runn.Exec.{Result, ok, err, Exec, pure, lift, modify, branch, ◌>>=◌, ◌>>◌}
use unity_runn.Web.Api.{
  get, post, include, Payload, Response, HttpCall, Page, W, Env, is_ok, get_headers,
  handle_response, try_refresh_token, assign_login,
}

pub record File : Type 0 where
  pub blob : String
  pub filename : Option String

module _ (env : Env) where
  abbrev pub upload_call : String → String → String → HttpCall
  upload_call path form token = record {
    url = String.◌++◌ env.base_url path;
    method = post;
    headers = get_headers false token;
    body = some form;
    credentials = include;
  }

  abbrev pub download_call : String → String → HttpCall
  download_call path token = record {
    url = String.◌++◌ env.base_url path;
    method = get;
    headers = get_headers false token;
    body = none;
    credentials = include;
  }

  -- `doFetch`, under the token of the moment
  unfoldable pub sending : (String → HttpCall) → W Response
  sending call w = let c = call w.access_token in env.fetch c (record w { trace = c ∷ w.trace })

  unfoldable pub send_again : (String → HttpCall) → Response → W Response
  send_again call first = do
    refreshed ← try_refresh_token env
    branch refreshed (sending call) (do modify (assign_login env); pure first)

  unfoldable pub exchange : (String → HttpCall) → W Response
  exchange call = do
    first ← sending call
    branch (first.status == 401 && env.in_browser) (send_again call first) (pure first)

  unfoldable pub upload : String → String → W Payload
  upload path form = exchange (upload_call path form) >>= handle_response env

  -- The file is read only of an answer that is a success; `file` is the content of an answer.
  unfoldable pub download : (Response → Result File) → String → W File
  download file path = do
    r ← exchange (download_call path)
    branch (is_ok r) (pure tt) (handle_response env r >> pure tt)
    lift (file r)
