-- ===== src/Tabs/Byok.antt =====
-- web/src/App.jsx, `BYOKSettings`: the credentials of LLM providers.
pub mod Laws
pub mod Panel
pub mod Flight
use webhook_listener.Prelude.{Bool, true, false, String, List, [], none, some}
use webhook_listener.Js.Value.{Value, str, bool, obj, end, field}
use webhook_listener.Js.Engine.{Engine}
use webhook_listener.Async.{Act, ◌>>=◌, ◌>>◌, catch, finally}
use webhook_listener.Async.Steps.{set_state}
use webhook_listener.Api.{api_request, no_options, with_body, rows}

pub record State : Type 0 where
  pub provider : String
  pub api_key : String
  pub base_url : String
  pub model : String
  pub saving : Bool
  pub notice : String
  pub providers : List Value
  pub loading_providers : Bool

abbrev pub initial : State
initial = record {
  provider = "groq";
  api_key = "";
  base_url = "";
  model = "";
  saving = false;
  notice = "";
  providers = [];
  loading_providers = false;
}

-- The body of a save, from the fields that the closure captured.
abbrev pub config_value : State → Value
config_value s = obj (
    field "provider" (str s.provider) (
      field "api_key" (str s.api_key) (
        field "base_url" (str s.base_url)
          (field "model" (str s.model) (field "is_default" (bool true) end)))))

module _ ⦃js : Engine⦄ where
  unfoldable pub fetch_providers : Act State Unit
  fetch_providers = do
    set_state (λ s. record s { loading_providers = true })
    finally
        (catch
          (do
            reply ← api_request "/v1/byok/providers" no_options
            set_state (λ s. record s { providers = rows reply }))
          (λ e. set_state (λ s. record s { notice = e })))
        (λ s. record s { loading_providers = false })

  unfoldable pub save : State → Act State Unit
  unfolding fetch_providers
  save captured = do
    set_state (λ s. record s { saving = true })
    set_state (λ s. record s { notice = "" })
    finally
        (catch
          (do
            api_request "/v1/byok/providers"
                (with_body "POST" (js.stringify (config_value captured)))
            set_state (λ s. record s { api_key = "" })
            set_state (λ s. record s { base_url = "" })
            set_state (λ s. record s { model = "" })
            fetch_providers
            set_state (λ s. record s { notice = "Provider config saved." }))
          (λ e. set_state (λ s. record s { notice = e })))
        (λ s. record s { saving = false })
