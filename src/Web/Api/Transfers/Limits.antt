-- ===== src/Web/Api/Transfers/Limits.antt =====
-- How often an upload or a download calls the service.
use unity_runn.Prelude.{◌+◌, ◌≤◌, String, ◌≡◌, arith}
use unity_runn.Exec.{Result}
use unity_runn.Web.Api.{Response, HttpCall, Page, Env, try_refresh_token, assign_login}
use unity_runn.Web.Api.Bounds.{IsAlone, calls, try_refresh_token-calls, handle_response-calls}
use unity_runn.Web.Api.Transfers.{
  File, upload_call, download_call, sending, send_again, exchange, upload, download,
}

module _ (env : Env) (only : IsAlone env) where
  sending-calls : (call : String → HttpCall) (w : Page) → calls (sending env call w).1 ≡ calls w + 1
  unfolding sending
  sending-calls call w = grind (arith, only.fetch)

  send_again-calls :
      (call : String → HttpCall) (first : Response) (w : Page)
      → calls (send_again env call first w).1 ≤ calls w + 2
  unfolding send_again assign_login
  send_again-calls call first w =
      let u = (try_refresh_token env w).1 in
      ground (arith, try_refresh_token-calls env only w, sending-calls call u)

  exchange-calls :
      (call : String → HttpCall) (w : Page) → calls (exchange env call w).1 ≤ calls w + 3
  unfolding exchange
  exchange-calls call w = grind (arith, sending-calls call w, send_again-calls call)

  upload-calls : (path form : String) (w : Page) → calls (upload env path form w).1 ≤ calls w + 3
  unfolding upload
  upload-calls path form w =
      grind (arith, exchange-calls (upload_call env path form) w, handle_response-calls env only)

  download-calls :
      (file : Response → Result File) (path : String) (w : Page)
      → calls (download env file path w).1 ≤ calls w + 3
  unfolding download
  download-calls file path w =
      grind (arith, exchange-calls (download_call env path) w, handle_response-calls env only)

-- An upload and a download that other tasks do not overlap call the service three times at most.
pub transfers-calls_thrice :
    (env : Env) (only : IsAlone env) (file : Response → Result File) (path form : String) (w : Page)
    → (calls (upload env path form w).1 ≤ calls w + 3)
      × (calls (download env file path w).1 ≤ calls w + 3)
transfers-calls_thrice env only file path form w =
    (upload-calls env only path form w, download-calls env only file path w)
