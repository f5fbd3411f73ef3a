-- ===== src/Api/Laws.antt =====
-- How a call of `apiRequest` runs, and which headers it sends.
use webhook_listener.Prelude.{◌≡◌, refl, List, ◌∷◌, String, none, some, arith, if◌then◌else◌}
use webhook_listener.Js.Value.{Value}
use webhook_listener.Js.Dict.{get, put}
use webhook_listener.Async.Steps.{OnOption, case_option, from_result}
use webhook_listener.Js.Engine.{Engine}
use webhook_listener.Async.{exec, World, Turn, finished, Result, ok, err, set_ui, add_sent}
use webhook_listener.Api.{Options, has_body, fetch_request, reply_result, api_request}

module _ ⦃js : Engine⦄ {S : Type 0} where
  finish-result :
      (r : Result Value) (ts : List (Turn S)) (w : World S)
      → exec (from_result r) ts w ≡ finished r ts w
  unfolding exec
  finish-result (ok v) ts w = refl
  finish-result (err e) ts w = refl

  -- A call sends one request, waits once, and comes to the result that the reply stands for.
  pub exec-api_request :
      (path : String) (options : Options) (t : Turn S) (ts : List (Turn S)) (w : World S)
      → exec (api_request path options) (t ∷ ts) w
        ≡ finished
            (reply_result t.reply)
            ts
            (set_ui t.meanwhile (add_sent (fetch_request path options) w))
  unfolding exec api_request
  exec-api_request path options t ts w = finish-result (reply_result t.reply) ts _

-- Without headers of its own a call accepts JSON, and declares a JSON body exactly if it has a
-- body; with headers of its own it sends those alone.
pub headers-fetch_request :
    (path : String) (options : Options)
    → OnOption options.headers
        ((get "Accept" (fetch_request path options).headers ≡ some "application/json")
          × (get "Content-Type" (fetch_request path options).headers
              ≡ (if has_body options.body then some "application/json" else none)))
        (λ h. (fetch_request path options).headers ≡ h)
unfolding fetch_request get put
headers-fetch_request path options =
    case_option options.headers _ _ (λ e. (ground arith, ground arith)) (λ h e. ground arith)
