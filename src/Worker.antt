-- ===== src/Worker.antt =====
-- cloudflare-worker-root/index.js: the edge worker, which sends a request to the application's
-- origin or serves the static site.
pub mod Routing
pub mod Upstream
use Prim.Native.String
use webhook_listener.Prelude.{
  ℕ, Bool, true, false, not, ◌||◌, ◌&&◌, String, ◌==◌, Option, none, some, if◌then◌else◌, nat_eq,
  code, Char,
}
use text.Mathlib.Text.{starts_with}
use webhook_listener.Js.Value.{Value, str, to_text, ◌or◌, ◌⧺◌}
use webhook_listener.Js.Text.{strip_slashes, has_char, is_slash}
use webhook_listener.Js.Dict.{Dict, put}
use webhook_listener.Async.{Result, ok, err}

-- A request at the edge, with its URL as `new URL(request.url)` splits it. Header names are in
-- lower case, as `Headers` keeps them.
pub record EdgeRequest : Type 0 where
  pub hostname : String
  pub pathname : String
  pub search : String
  pub protocol : String
  pub method : String
  pub headers : Dict String
  pub body : Option String

-- The bindings of the worker that it reads.
pub record Env : Type 0 where
  pub app_origin_url : Value
  pub app_origin_shared_secret : Value

pub record Response : Type 0 where
  pub status : ℕ
  pub headers : Dict String
  pub body : String

-- A base URL, split into its scheme and authority, and what a reference resolves to against it.
pub record Url : Type 0 where
  pub scheme : String
  pub authority : String
  pub path : String

pub record Proxied : Type 0 where
  pub url : Url
  pub method : String
  pub headers : Dict String
  pub body : Option String
  pub redirect : String
  pub cache_ttl : ℕ
  pub cache_everything : Bool

pub data Outgoing : Type 0 where
  original : EdgeRequest → Outgoing
  proxied : Proxied → Outgoing

-- String(env.X || '')
abbrev pub env_text : Value → String
env_text v = to_text (v or str "")

unfoldable pub is_api_request : String → Bool
is_api_request pathname =
    starts_with pathname "/v1/" || starts_with pathname "/api/" || starts_with pathname "/auth/"

abbrev pub for_app : EdgeRequest → Bool
for_app r = r.hostname == "app.agenthook.store" || is_api_request r.pathname

-- new URL(reference, base) for a reference that begins with a slash, as paths do: after two slashes
-- the base gives the scheme alone, and what follows is parsed as a URL with that scheme; otherwise
-- the base keeps its scheme and authority. `parse_url` is new URL of one argument.
unfoldable pub resolve : (parse_url : String → Result Url) → String → Url → Result Url
resolve parse_url (String.◌∷◌ c (String.◌∷◌ d s)) base =
    if is_slash c && is_slash d
    then parse_url (base.scheme ⧺ String.◌∷◌ c (String.◌∷◌ d s))
    else ok (record base { path = String.◌∷◌ c (String.◌∷◌ d s) })
resolve parse_url reference base = ok (record base { path = reference })

-- 'https:'.replace(':', '')
unfoldable pub without_colon : String → String
without_colon String.[] = String.[]
without_colon (String.◌∷◌ c s) =
    let rest = without_colon s in if nat_eq (code c) b':' then s else String.◌∷◌ c rest

-- The three headers that the worker adds for the origin.
unfoldable pub origin_headers : EdgeRequest → String → Dict String
origin_headers r secret = put "x-agenthook-origin-secret" secret (
    put "x-forwarded-proto" (without_colon r.protocol)
      (put "x-forwarded-host" r.hostname r.headers))

-- The upstream request, where `url` is its resolved address.
unfoldable pub upstream_request : EdgeRequest → Env → Url → Proxied
unfolding origin_headers
upstream_request r env url = record {
  url = url;
  method = r.method;
  headers = origin_headers r (env_text env.app_origin_shared_secret);
  body = r.body;
  redirect = "manual";
  cache_ttl = 0;
  cache_everything = false;
}

abbrev pub then_url {ℓ} : {A : Type ℓ} → Result Url → (Url → Result A) → Result A
then_url (ok url) f = f url
then_url (err e) f = err e

-- new Response(response.body, response) with the worker's headers set
unfoldable pub stamped : String → String → Response → Response
stamped source cache response = record response {
  headers = put "cache-control" cache (put "x-agenthook-site-source" source response.headers);
}

unfoldable pub static_headers : Response → Response
static_headers response = record response {
  headers =
      put "referrer-policy" "strict-origin-when-cross-origin"
        (put "x-content-type-options" "nosniff" response.headers);
}

-- No file name: the path has no dot.
abbrev pub is_dot : Char → Bool
is_dot c = nat_eq (code c) b'.'

abbrev pub falls_back : ℕ → String → String → Bool
falls_back status method pathname =
    nat_eq status 404 && method == "GET" && not (has_char is_dot pathname)

abbrev pub map_response : Result Response → (Response → Response) → Result Response
map_response (ok r) f = ok (f r)
map_response (err e) f = err e

abbrev pub with_response : Result Response → (Response → Result Response) → Result Response
with_response (ok r) f = f r
with_response (err e) f = err e

-- `fetch` and `env.ASSETS.fetch` are the world's; `parse_url` splits a URL, and fails where new URL
-- throws.
module _ (fetch : Outgoing → Result Response) (assets : EdgeRequest → Result Response)
    (parse_url : String → Result Url) where
  unfoldable pub to_origin : EdgeRequest → Env → Result Response
  unfolding upstream_request stamped resolve
  to_origin r env = then_url (parse_url (strip_slashes (env_text env.app_origin_url) ⧺ "/")) λ base.
      then_url (resolve parse_url (r.pathname ⧺ r.search) base) λ url.
        map_response (fetch (proxied (upstream_request r env url)))
          (stamped "cloudflare-worker-lambda-proxy" "no-store")

  unfoldable pub passthrough : EdgeRequest → Result Response
  unfolding stamped
  passthrough r =
      map_response (fetch (original r)) (stamped "cloudflare-worker-origin-fallback" "no-store")

  unfoldable pub static_site : EdgeRequest → Result Response
  unfolding stamped static_headers
  static_site r = with_response (assets r) λ first.
      map_response
        (if falls_back first.status r.method r.pathname
          then assets (record r { pathname = "/index.html"; search = "" })
          else ok first)
        λ response.
          static_headers (
            stamped "cloudflare-worker-static-website" "public, max-age=0, must-revalidate"
              response)

  unfoldable pub handle : EdgeRequest → Env → Result Response
  unfolding to_origin passthrough static_site
  handle r env =
      if for_app r
      then (if strip_slashes (env_text env.app_origin_url) == ""
          then passthrough r
          else to_origin r env)
      else static_site r
