-- ===== src/Tabs/Byok/Panel.antt =====
-- web/src/App.jsx, `BYOKSettings`: what the panel shows, and what its controls do.
use webhook_listener.Tabs.Byok.{fetch_providers, initial, State, save}
use webhook_listener.Prelude.{not, ◌&&◌, String, ◌==◌, [], ◌∷◌, if◌then◌else◌}
use webhook_listener.Js.Value.{Value, str, prop, truthy, ◌or◌}
use webhook_listener.Js.Engine.{Engine}
use webhook_listener.Async.{Act}
use webhook_listener.Async.Steps.{set_state}
use webhook_listener.Async.Stage.{Component, NoEffect}
use webhook_listener.View.{
  View, nothing, ◌&◌, text, value, button, select, option, shown_if, each, is_nil,
}
use webhook_listener.View.Parts.{panel, form_field, text_input, inline_notice, status_badge}

pub data Event : Type 0 where
  choose_provider type_key type_url type_model : String → Event
  press_save : Event

abbrev provider_row : Value → View Event
provider_row item =
    value (prop "provider" item)
    & status_badge (str (if truthy (prop "is_default" item) then "ACTIVE" else "SHADOW"))
    & value (prop "model" item or str "default model")
    & value (prop "base_url" item or str "default endpoint")

abbrev provider_options : View Event
provider_options =
    option (str "groq") (str "Groq (Recommended)")
    & option (str "cerebras") (str "Cerebras")
    & option (str "openai") (str "OpenAI")
    & option (str "openrouter") (str "OpenRouter")

unfoldable pub byok_view : State → View Event
byok_view s =
    panel "LLM Providers"
      "Manage your provider credentials separately from webhook settings, with model and endpoint overrides when needed."
      nothing
      (form_field "Provider" (select (str s.provider) provider_options choose_provider)
        & form_field "API Key" (text_input s.api_key type_key)
        & form_field "Base URL" (text_input s.base_url type_url)
        & form_field "Model" (text_input s.model type_model)
        & shown_if (not (s.notice == "")) (inline_notice s.notice)
        & button (if s.saving then "SAVING..." else "SAVE CONFIG") s.saving press_save
        & text "Saved Providers"
        & each s.providers provider_row
        & shown_if (is_nil s.providers && not s.loading_providers)
            (text "No BYOK providers saved yet."))

module _ ⦃js : Engine⦄ where
  unfoldable pub on_event : State → Event → Act State Unit
  on_event s (choose_provider v) = set_state (λ t. record t { provider = v })
  on_event s (type_key v) = set_state (λ t. record t { api_key = v })
  on_event s (type_url v) = set_state (λ t. record t { base_url = v })
  on_event s (type_model v) = set_state (λ t. record t { model = v })
  on_event s press_save = save s

  unfoldable pub byok_panel : Component State Event
  byok_panel = record {
    start = initial;
    opening = fetch_providers ∷ [];
    view = byok_view;
    on = on_event;
    effect = NoEffect;
  }
