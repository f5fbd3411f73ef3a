-- ===== src/Worker/Routing.antt =====
-- Which of its three ways the worker takes, and what it adds to the response on each.
use webhook_listener.Js.Value.{◌⧺◌}
use webhook_listener.Worker.{
  resolve, upstream_request, falls_back, proxied, handle, static_site, passthrough, to_origin,
  then_url, with_response, Url, map_response, Outgoing, EdgeRequest, Env, Response, for_app,
  env_text, stamped, static_headers,
}
use webhook_listener.Prelude.{inr, inl, Bool-cases, ◌≡◌, String, ◌==◌, some, if◌then◌else◌}
use webhook_listener.Async.{err, ok, Result}
use webhook_listener.Js.Text.{strip_slashes}
use webhook_listener.Js.Dict.{get, get-put}

-- The source that the worker names in its response, by request and bindings.
abbrev pub source_of : EdgeRequest → Env → String
source_of r env =
    if for_app r
    then (if strip_slashes (env_text env.app_origin_url) == ""
        then "cloudflare-worker-origin-fallback"
        else "cloudflare-worker-lambda-proxy")
    else "cloudflare-worker-static-website"

-- A response of the application is never cached, one of the static site is revalidated.
abbrev pub cache_of : EdgeRequest → String
cache_of r = if for_app r then "no-store" else "public, max-age=0, must-revalidate"

pub record IsStamped (source cache : String) (response : Response) : Type 0 where
  pub names_source : get "x-agenthook-site-source" response.headers ≡ some source
  pub names_cache : get "cache-control" response.headers ≡ some cache

stamped-IsStamped :
    (source cache : String) (response : Response)
    → IsStamped source cache (stamped source cache response)
unfolding stamped
stamped-IsStamped source cache response = record {
  names_source = simp get-put;
  names_cache = simp get-put;
}

static-IsStamped :
    (source cache : String) (response : Response)
    → IsStamped source cache (static_headers (stamped source cache response))
unfolding static_headers stamped
static-IsStamped source cache response = record {
  names_source = simp get-put;
  names_cache = simp get-put;
}

map_response-IsStamped :
    (source cache : String) (r : Result Response) (f : Response → Response)
    → ((x : Response) → IsStamped source cache (f x))
    → (response : Response) → map_response r f ≡ ok response
    → IsStamped source cache response
map_response-IsStamped source cache (ok x) f h response e =
    let same : f x ≡ response = cc in rw (← same) (h x)
map_response-IsStamped source cache (err m) f h response e = cc

with_response-IsStamped :
    (source cache : String) (r : Result Response) (f : Response → Result Response)
    → ((x y : Response) → f x ≡ ok y → IsStamped source cache y)
    → (response : Response) → with_response r f ≡ ok response
    → IsStamped source cache response
with_response-IsStamped source cache (ok x) f h response e = h x response e
with_response-IsStamped source cache (err m) f h response e = cc

then_url-IsStamped :
    (source cache : String) (r : Result Url) (f : Url → Result Response)
    → ((u : Url) (y : Response) → f u ≡ ok y → IsStamped source cache y)
    → (response : Response) → then_url r f ≡ ok response
    → IsStamped source cache response
then_url-IsStamped source cache (ok x) f h response e = h x response e
then_url-IsStamped source cache (err m) f h response e = cc

module _ (fetch : Outgoing → Result Response) (assets : EdgeRequest → Result Response)
    (parse_url : String → Result Url) where
  to_origin-IsStamped :
      (r : EdgeRequest) (env : Env) (response : Response)
      → to_origin fetch assets parse_url r env ≡ ok response
      → IsStamped "cloudflare-worker-lambda-proxy" "no-store" response
  unfolding to_origin
  to_origin-IsStamped r env =
      let send = λ (url : Url). fetch (proxied (upstream_request r env url)) in
      let stamp = stamped "cloudflare-worker-lambda-proxy" "no-store" in
      let address = λ (base : Url). resolve parse_url (r.pathname ⧺ r.search) base in
      then_url-IsStamped _ _ (parse_url (strip_slashes (env_text env.app_origin_url) ⧺ "/"))
        (λ base. then_url (address base) (λ url. map_response (send url) stamp))
        λ base.
          then_url-IsStamped _ _ (address base) (λ url. map_response (send url) stamp)
            λ url. map_response-IsStamped _ _ (send url) stamp (stamped-IsStamped _ _)

  passthrough-IsStamped :
      (r : EdgeRequest) (response : Response)
      → passthrough fetch assets parse_url r ≡ ok response
      → IsStamped "cloudflare-worker-origin-fallback" "no-store" response
  unfolding passthrough
  passthrough-IsStamped r = map_response-IsStamped _ _ _ _ (stamped-IsStamped _ _)

  static_site-IsStamped :
      (r : EdgeRequest) (response : Response)
      → static_site fetch assets parse_url r ≡ ok response
      → IsStamped "cloudflare-worker-static-website" "public, max-age=0, must-revalidate" response
  unfolding static_site
  static_site-IsStamped r =
      let page = λ (first : Response).
        if falls_back first.status r.method r.pathname
        then assets (record r { pathname = "/index.html"; search = "" })
        else ok first in
      let stamp = λ (x : Response).
        static_headers
          (stamped "cloudflare-worker-static-website" "public, max-age=0, must-revalidate" x) in
      with_response-IsStamped _ _ (assets r) (λ first. map_response (page first) stamp)
        λ first. map_response-IsStamped _ _ (page first) stamp (static-IsStamped _ _)

  -- Every response that leaves the worker names the way it came by, application or static site,
  -- and the cache policy of that way, whatever the origin and the assets answered.
  pub handle-IsStamped :
      (r : EdgeRequest) (env : Env) (response : Response)
      → handle fetch assets parse_url r env ≡ ok response
      → IsStamped (source_of r env) (cache_of r) response
  unfolding handle
  handle-IsStamped r env response h = elim (Bool-cases (for_app r)) [
    | inl app ↦ elim (Bool-cases (strip_slashes (env_text env.app_origin_url) == "")) [
      | inl unset ↦
          rw (app, unset) (passthrough-IsStamped r response (rw (app, unset, handle) at h))
      | inr origin ↦
          rw (app, origin) (to_origin-IsStamped r env response (rw (app, origin, handle) at h))
    ]
    | inr site ↦ rw site (static_site-IsStamped r response (rw (site, handle) at h))
  ]
