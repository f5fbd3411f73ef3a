-- ===== src/Urls/Refresh.antt =====
-- The end that deleting and creating a listener share: the refresh of the console, which the tab is
-- given as a property, and then the identities.
use webhook_listener.Prelude.{◌≡◌, false, true, String, List, [], ◌∷◌, ◌++◌, arith}
use webhook_listener.Js.Value.{Value}
use webhook_listener.Js.Engine.{Engine}
use webhook_listener.Async.{
  Act, exec, World, Turn, finished, Result, ok, err, ◌>>=◌, catch, finally,
}
use webhook_listener.Async.Laws.{exec-bind, exec-catch}
use webhook_listener.Api.{api_request, reply_result, fetch_request, no_options, rows}
use webhook_listener.Urls.State.{State}
use webhook_listener.Urls.Identities.{fetch_webhook_identities}

abbrev pub identities_or : Result Value → List Value → List Value
identities_or (ok v) old = rows v
identities_or (err e) old = old

module _ ⦃js : Engine⦄ where
  -- The world after the identities are fetched.
  abbrev pub with_identities : Turn State → World State → World State
  with_identities t w =
      let s = t.meanwhile (record w.ui { loading_identities = true }) in
      record {
        ui = record s {
          webhook_identities = identities_or (reply_result t.reply) s.webhook_identities;
          loading_identities = false;
        };
        sent = w.sent ++ fetch_request "/api/webhook-identities" no_options ∷ [];
      }

  pub exec-fetch_webhook_identities :
      (t : Turn State) (ts : List (Turn State)) (w : World State)
      → exec fetch_webhook_identities (t ∷ ts) w ≡ finished (ok tt) ts (with_identities t w)
  unfolding fetch_webhook_identities exec ◌>>=◌ catch finally api_request
  exec-fetch_webhook_identities t ts w = ground arith

  -- After a refresh that ends normally the identities are fetched, and nothing is caught.
  pub exec-refresh_then_fetch :
      (refresh : Act State Unit) (h : String → Act State Unit) (t : Turn State)
      (ts rest : List (Turn State)) (w w' : World State)
      → exec refresh ts w ≡ finished (ok tt) (t ∷ rest) w'
      → exec (catch (refresh >>= λ _. fetch_webhook_identities) h) ts w
        ≡ finished (ok tt) rest (with_identities t w')
  exec-refresh_then_fetch refresh h t ts rest w w' r =
      rw (exec-catch, exec-bind, r, exec-fetch_webhook_identities)
