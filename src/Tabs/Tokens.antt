-- ===== src/Tabs/Tokens.antt =====
-- web/src/App.jsx, `HomeDashboard` and `ApiTokensTab`: the API tokens of an account.
pub mod Laws
pub mod Panel
pub mod Flight
use webhook_listener.Prelude.{Bool, true, false, not, String, List, [], none, some, if◌then◌else◌}
use webhook_listener.Js.Value.{Value, str, prop, to_text, ◌or◌, ◌⧺◌}
use webhook_listener.Js.Engine.{Engine}
use webhook_listener.Async.{Act, ◌>>=◌, ◌>>◌, catch, finally}
use webhook_listener.Async.Steps.{set_state, skip, confirm}
use webhook_listener.Api.{api_request, no_options, with_method, rows}

pub record State : Type 0 where
  pub api_token : Value
  pub token_busy : Bool
  pub api_tokens_list : List Value
  pub loading_tokens : Bool
  pub error : String

abbrev pub initial : State
initial = record {
  api_token = str "";
  token_busy = false;
  api_tokens_list = [];
  loading_tokens = false;
  error = "";
}

module _ ⦃js : Engine⦄ where
  -- A failure is only logged.
  unfoldable pub fetch_tokens : Act State Unit
  fetch_tokens = do
    set_state (λ s. record s { loading_tokens = true })
    finally
        (catch
          (do
            reply ← api_request "/v1/auth/tokens" no_options
            set_state (λ s. record s { api_tokens_list = rows reply }))
          (λ e. skip))
        (λ s. record s { loading_tokens = false })

  unfoldable pub create_token : Act State Unit
  unfolding fetch_tokens
  create_token = do
    set_state (λ s. record s { token_busy = true })
    set_state (λ s. record s { error = "" })
    finally
        (catch
          (do
            created ← api_request "/v1/auth/tokens" (with_method "POST")
            set_state (λ s. record s { api_token = prop "token" created or str "" })
            fetch_tokens)
          (λ e. set_state (λ s. record s { error = e })))
        (λ s. record s { token_busy = false })

  unfoldable pub revoke_token : Value → Act State Unit
  unfolding fetch_tokens
  revoke_token id = do
    revoke ← confirm "Revoke this token? Any scripts using it will fail immediately."
    if not revoke
        then skip
        else catch
            (do api_request ("/v1/auth/tokens/" ⧺ to_text id) (with_method "DELETE"); fetch_tokens)
            (λ e. set_state (λ s. record s { error = e }))
