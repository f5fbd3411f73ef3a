-- ===== src/Tabs/Integrations/Presets.antt =====
-- web/src/App.jsx, `INTEGRATION_PRESETS` and `applyIntegrationPreset`.
use webhook_listener.Prelude.{
  Bool, true, String, ◌==◌, List, [], ◌∷◌, Option, none, some, if◌then◌else◌,
}
use webhook_listener.Js.Value.{Value, str, obj, end, field, prop, ◌or◌, ◌⧺◌}
use webhook_listener.Js.Engine.{Engine}
use webhook_listener.Json.{pretty_json}
use webhook_listener.Tabs.Integrations.{State, example_config}

pub record Preset : Type 0 where
  pub target_key : String
  pub target_type : String
  pub purpose : String
  pub enabled : Bool
  pub allowed_actions : List Value
  pub config : Value
  pub auth : Value
  pub schema : Value

abbrev pub openclaw : Preset
openclaw = record {
  target_key = "openclaw_primary";
  target_type = "http";
  purpose = "Forward structured leads and tickets into OpenClaw.";
  enabled = true;
  allowed_actions = str "forward_http" ∷ str "crm_upsert" ∷ str "ticket_create" ∷ [];
  config = obj (
      field "url" (str "https://api.openclaw.example/v1/intake") (field "method" (str "POST") end));
  auth = obj (
      field "type" (str "bearer_header") (
        field "secret_ref" (str "openclaw_api_key") (
          field "header_name" (str "Authorization")
            (field "prefix" (str "Bearer ") (field "env_var" (str "OPENCLAW_API_KEY") end)))));
  schema = obj (field "entity_payload" (str "object") (field "source" (str "agenthook") end));
}

abbrev pub forward_url : Preset
forward_url = record {
  target_key = "forward_url_primary";
  target_type = "http";
  purpose = "Forward events to any custom HTTP endpoint.";
  enabled = true;
  allowed_actions = str "forward_http" ∷ str "slack_notify" ∷ [];
  config = example_config;
  auth = obj (
      field "type" (str "none") (
        field "secret_ref" (str "") (
          field "header_name" (str "") (
            field "prefix" (str "")
              (field "query_param" (str "") (field "env_var" (str "") end))))));
  schema = obj end;
}

-- INTEGRATION_PRESETS[presetKey]
unfoldable pub integration_preset : String → Option Preset
integration_preset key =
    if key == "openclaw"
    then some openclaw
    else if key == "forward_url"
    then some forward_url
    else none

module _ ⦃js : Engine⦄ where
  unfoldable pub with_preset : Preset → State → State
  with_preset preset s = record s {
    target_form = record {
      target_key = str preset.target_key;
      target_type = str preset.target_type;
      purpose = str preset.purpose;
      enabled = preset.enabled;
      allowed_actions = preset.allowed_actions;
      auth_type = prop "type" preset.auth or str "none";
      auth_secret_ref = prop "secret_ref" preset.auth or str "";
      auth_header_name = prop "header_name" preset.auth or str "";
      auth_prefix = prop "prefix" preset.auth or str "";
      auth_query_param = prop "query_param" preset.auth or str "";
      auth_env_var = prop "env_var" preset.auth or str "";
      config_text = str (pretty_json preset.config);
      schema_text = str (pretty_json preset.schema);
      header_secret_refs_text = str (pretty_json (obj end));
      header_env_refs_text = str (pretty_json (obj end));
    };
    editing_target_id = str "";
    notice =
        preset.target_key
        ⧺ " template loaded. Attach a named secret ref or rely on single-tenant env fallback.";
  }

  unfoldable pub apply_integration_preset : String → State → State
  unfolding integration_preset with_preset
  apply_integration_preset key s = elim (integration_preset key) [
    | none ↦ s
    | some preset ↦ with_preset preset s
  ]
