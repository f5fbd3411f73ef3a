-- ===== src/Tests/Edge.antt =====
-- Requests at the edge worker.
use webhook_listener.Worker.Routing.{handle-IsStamped, source_of, cache_of, IsStamped}
use webhook_listener.Worker.Upstream.{headers-upstream_request, handle-leaves_origin}
use webhook_listener.Tests.{sample_engine}
use webhook_listener.Js.Value.{◌⧺◌, truthy, to_text, str}
use webhook_listener.Worker.{
  resolve, upstream_request, handle, to_origin, Url, EdgeRequest, Env, Response, env_text, stamped,
  without_colon, is_api_request, Outgoing, Proxied, proxied, map_response,
}
use webhook_listener.Prelude.{◌≡◌, String, ◌==◌, some, if◌then◌else◌, refl, none, [], ◌∷◌}
use webhook_listener.Async.{Result, ok}
use webhook_listener.Js.Text.{strip_slashes, drop_end}
use webhook_listener.Js.Dict.{get}

abbrev request : EdgeRequest
request = record {
  hostname = "app.agenthook.store";
  pathname = "/v1/events";
  search = "";
  protocol = "https:";
  method = "GET";
  headers = ("accept", "*/*") ∷ [];
  body = none;
}

abbrev env : Env
env = record { app_origin_url = str "https://origin.example"; app_origin_shared_secret = str "s" }

abbrev base : Url
base = record { scheme = "https:"; authority = "origin.example"; path = "/" }

abbrev page : Response
page = record { status = 200; headers = []; body = "hello" }

abbrev page_out : Response
page_out = stamped "cloudflare-worker-lambda-proxy" "no-store" page

page_out_eq : handle (λ out. ok page) (λ r. ok page) (λ s. ok base) request env ≡ ok page_out
unfolding handle to_origin resolve is_api_request strip_slashes drop_end truthy to_text
page_out_eq = refl

handle-IsStamped_example : IsStamped (source_of request env) (cache_of request) page_out
handle-IsStamped_example =
    handle-IsStamped (λ out. ok page) (λ r. ok page) (λ s. ok base) request env page_out page_out_eq

headers-upstream_request_example : get "accept" (upstream_request request env base).headers ≡ (
    if "x-agenthook-origin-secret" == "accept"
    then some (env_text env.app_origin_shared_secret)
    else if "x-forwarded-proto" == "accept"
    then some (without_colon request.protocol)
    else if "x-forwarded-host" == "accept"
    then some request.hostname
    else get "accept" request.headers)
headers-upstream_request_example = headers-upstream_request request env base "accept"

abbrev slashed : EdgeRequest
slashed = record request { pathname = "//evil.com/x" }

abbrev page_of : Outgoing → Result Response
page_of out = ok page

abbrev evil : Url
evil = record { scheme = "https:"; authority = "evil.com"; path = "/x" }

abbrev parse : String → Result Url
parse s = if s == "https:" ⧺ "//evil.com/x" then ok evil else ok base

handle-leaves_origin_example :
    (p : Proxied) × (p.url ≡ evil)
    × (get "x-agenthook-origin-secret" p.headers ≡ some (env_text env.app_origin_shared_secret))
    × (handle page_of (λ r. ok page) parse slashed env
        ≡ map_response (page_of (proxied p)) (stamped "cloudflare-worker-lambda-proxy" "no-store"))
unfolding strip_slashes drop_end truthy to_text
handle-leaves_origin_example =
    handle-leaves_origin page_of (λ r. ok page) parse slashed env "evil.com/x" base evil refl refl
      refl refl refl
