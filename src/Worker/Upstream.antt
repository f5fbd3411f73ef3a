-- ===== src/Worker/Upstream.antt =====
-- Where a request to the application goes, and with which headers.
use webhook_listener.Prelude.{
  ◌≡◌, refl, true, false, String, ◌==◌, some, arith, if◌then◌else◌, Char,
}
use webhook_listener.Js.Value.{◌⧺◌}
use webhook_listener.Js.Text.{is_slash, strip_slashes}
use webhook_listener.Js.Dict.{get, get-put}
use webhook_listener.Async.{Result, ok}
use webhook_listener.Worker.{
  EdgeRequest, Env, Url, Response, Outgoing, Proxied, proxied, for_app, env_text, resolve,
  upstream_request, origin_headers, without_colon, stamped, map_response, handle, to_origin,
}

-- The origin receives every header of the request, but for the three that the worker sets: the
-- host and the scheme that the visitor used, and the shared secret.
pub headers-upstream_request :
    (r : EdgeRequest) (env : Env) (url : Url) (k : String)
    → get k (upstream_request r env url).headers ≡ (
        if "x-agenthook-origin-secret" == k
        then some (env_text env.app_origin_shared_secret)
        else if "x-forwarded-proto" == k
        then some (without_colon r.protocol)
        else if "x-forwarded-host" == k
        then some r.hostname
        else get k r.headers)
unfolding upstream_request origin_headers
headers-upstream_request r env url k = simp get-put

upstream_url : (r : EdgeRequest) (env : Env) (url : Url) → (upstream_request r env url).url ≡ url
unfolding upstream_request
upstream_url r env url = refl

-- A path whose second character is no slash keeps the origin's scheme and authority.
pub resolve-keeps_authority :
    (parse_url : String → Result Url) (c d : Char) (s : String) (base : Url)
    → is_slash d ≡ false
    → resolve parse_url (String.◌∷◌ c (String.◌∷◌ d s)) base
      ≡ ok (record base { path = String.◌∷◌ c (String.◌∷◌ d s) })
unfolding resolve
resolve-keeps_authority parse_url c d s base h = ground arith

resolve-two_slashes :
    (parse_url : String → Result Url) (rest : String) (base : Url)
    → resolve parse_url (String.◌∷◌ "/" (String.◌∷◌ "/" rest)) base
      ≡ parse_url (base.scheme ⧺ String.◌∷◌ "/" (String.◌∷◌ "/" rest))
unfolding resolve
resolve-two_slashes parse_url rest base = refl

module _ (fetch : Outgoing → Result Response) (assets : EdgeRequest → Result Response)
    (parse_url : String → Result Url) where
  -- A request for the application whose path begins with two slashes, where the origin is configured
  -- and its URL has a scheme: the worker does not send it to the origin but to the URL that the
  -- visitor's path makes with the origin's scheme, if that is a URL, and with the shared secret.
  pub handle-leaves_origin :
      (r : EdgeRequest) (env : Env) (rest : String) (base url : Url)
      → for_app r ≡ true
      → (strip_slashes (env_text env.app_origin_url) == "") ≡ false
      → parse_url (strip_slashes (env_text env.app_origin_url) ⧺ "/") ≡ ok base
      → r.pathname ⧺ r.search ≡ String.◌∷◌ "/" (String.◌∷◌ "/" rest)
      → parse_url (base.scheme ⧺ String.◌∷◌ "/" (String.◌∷◌ "/" rest)) ≡ ok url
      → (p : Proxied) × (p.url ≡ url)
        × (get "x-agenthook-origin-secret" p.headers ≡ some (env_text env.app_origin_shared_secret))
        × (handle fetch assets parse_url r env
            ≡ map_response
                (fetch (proxied p))
                (stamped "cloudflare-worker-lambda-proxy" "no-store"))
  unfolding handle to_origin
  handle-leaves_origin r env rest base url app origin parsed path written = (
    upstream_request r env url,
    upstream_url r env url,
    headers-upstream_request r env url "x-agenthook-origin-secret",
    rw (app, origin, parsed, path, resolve-two_slashes parse_url rest base, written) refl,
  )
