-- ===== src/Api/Quiet.antt =====
-- A call of the server sets no state.
use webhook_listener.Prelude.{Bool, String}
use webhook_listener.Js.Engine.{Engine}
use webhook_listener.Async.Flight.{Quiet}
use webhook_listener.Async.Flight.Rules.{Quiet-from_result}
use webhook_listener.Api.{Options, api_request, reply_result}

module _ ⦃js : Engine⦄ {S : Type 0} (busy : S → Bool) where
  pub api_request-Quiet :
      (path : String) (options : Options) → Quiet busy (api_request path options)
  unfolding api_request Quiet
  api_request-Quiet path options = λ x. Quiet-from_result busy (reply_result x)
