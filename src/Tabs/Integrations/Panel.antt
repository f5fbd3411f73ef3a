-- ===== src/Tabs/Integrations/Panel.antt =====
-- web/src/App.jsx, `IntegrationsTab`: what the tab shows, and what its controls do.
pub mod Cards
use webhook_listener.Tabs.Integrations.Panel.Cards.{
  env_var, press_delete, secret_ref, press_edit, schema, auth_type, press_card, env_refs, purpose,
  prefix, toggle, press_reset, secret_refs, target_type, query_param, choose_enabled, press_save,
  config, target_key, header_name, press_refresh, load_preset, type_field, Event, Field, edited,
  target_card,
}
use webhook_listener.Prelude.{
  Bool, true, false, not, ◌&&◌, String, ◌==◌, List, [], ◌∷◌, if◌then◌else◌,
}
use webhook_listener.Js.Value.{Value, str, prop, truthy, is_text, strict_eq, to_text}
use webhook_listener.Js.Engine.{Engine}
use webhook_listener.Async.{Act}
use webhook_listener.Async.Stage.{Component, NoEffect}
use webhook_listener.Async.Steps.{set_state}
use webhook_listener.View.{
  View, nothing, ◌&◌, text, value, button, input, select, option, checkbox, shown_if, each, is_nil,
}
use webhook_listener.View.Parts.{panel, form_field, hinted_field, inline_notice}
use webhook_listener.Tabs.Integrations.{
  State, TargetForm, includes, toggle_action, reset_form, default_target_form, fetch_targets,
  fetch_secrets, persist_target, begin_edit_target, delete_target,
}
use webhook_listener.Tabs.Integrations.Presets.{apply_integration_preset}

abbrev pub integration_target_types : List String
integration_target_types = "http" ∷ "telegram" ∷ "openclaw" ∷ "custom" ∷ []

abbrev pub integration_action_options : List String
integration_action_options =
    "forward_http" ∷ "forward_telegram" ∷ "slack_notify" ∷ "crm_upsert" ∷ "ticket_create" ∷ []

abbrev pub integration_auth_types : List String
integration_auth_types = "none" ∷ "bearer_header" ∷ "custom_header" ∷ "query_param" ∷ []

-- {items.map((item) => <option>)}
abbrev options_of : List String → View Event
options_of items = each items (λ item. option (str item) (str item))

abbrev secret_options : List Value → View Event
secret_options secrets =
    option (str "") (str "None")
    & each secrets (λ secret. option (prop "secret_key" secret) (prop "secret_key" secret))

abbrev is_query : TargetForm → Bool
is_query form = is_text form.auth_type "query_param"

-- The fields of the way in which a target authenticates.
unfoldable pub auth_fields : TargetForm → View Event
auth_fields form = shown_if (not (is_text form.auth_type "none")) (
    form_field "Header Name" (input form.auth_header_name (type_field header_name))
    & form_field (if is_query form then "Query Param" else "Prefix") (
        input (if is_query form then form.auth_query_param else form.auth_prefix)
          (type_field (if is_query form then query_param else prefix))))

unfoldable pub target_fields : State → View Event
target_fields s =
    let form = s.target_form in
    hinted_field "Target Key" (input form.target_key (type_field target_key))
      "Skills and router outputs reference this stable key."
    & form_field "Target Type"
        (select form.target_type (options_of integration_target_types) (type_field target_type))
    & form_field "Enabled" (
        select (str (if form.enabled then "true" else "false"))
          (option (str "true") (str "Enabled") & option (str "false") (str "Disabled"))
          choose_enabled)
    & form_field "Purpose" (input form.purpose (type_field purpose))
    & form_field "Allowed Actions" (
        each integration_action_options
          (λ action. checkbox action (includes action form.allowed_actions) (toggle action)))
    & form_field "Auth Type"
        (select form.auth_type (options_of integration_auth_types) (type_field auth_type))
    & form_field "Secret Ref"
        (select form.auth_secret_ref (secret_options s.secrets) (type_field secret_ref))
    & auth_fields form
    & hinted_field "Explicit Env Var Override" (input form.auth_env_var (type_field env_var))
        "Optional env var to use after single-tenant conventional fallback."

unfoldable pub json_fields : TargetForm → View Event
json_fields form =
    hinted_field "Config JSON" (input form.config_text (type_field config))
      "Store the endpoint, static headers, and destination-specific options here."
    & hinted_field "Header Secret Refs JSON"
        (input form.header_secret_refs_text (type_field secret_refs))
        "Optional per-header secret refs, for example `{ \"X-API-Key\": \"crm_bearer_token\" }`. "
    & hinted_field "Header Env Refs JSON" (input form.header_env_refs_text (type_field env_refs))
        "Optional per-header env refs, for example `{ \"X-Webhook-Token\": \"OPENCLAW_TOKEN\" }`. "
    & hinted_field "Schema JSON" (input form.schema_text (type_field schema))
        "Optional hints for what params the skill or router should produce."

abbrev save_label : Bool → Value → String
save_label saving editing =
    if saving
    then "SAVING..."
    else if truthy editing
    then "SAVE INTEGRATION"
    else "CREATE INTEGRATION"

unfoldable pub create_panel : State → View Event
unfolding target_fields json_fields auth_fields
create_panel s =
    panel "Create Integration"
      "Define reusable named targets for OpenClaw, custom forward URLs, or any downstream system your skills can call."
      nothing
      (inline_notice
          "Use the separate Integration Secrets tab to create or rotate named secret refs, then attach them here to keep tokens out of target config."
        & button "Load OpenClaw Template" false (load_preset "openclaw")
        & button "Load Forward URL Template" false (load_preset "forward_url")
        & target_fields s
        & json_fields s.target_form
        & shown_if (not (s.notice == "")) (inline_notice s.notice)
        & button (save_label s.saving_target s.editing_target_id) s.saving_target press_save
        & shown_if (truthy s.editing_target_id) (button "Reset" false press_reset))

module _ ⦃js : Engine⦄ (local_time : Value → String) where
  unfoldable pub integrations_view : State → View Event
  unfolding create_panel target_card
  integrations_view s =
      text "Integrations"
      & create_panel s
      & panel "Configured Integrations"
          "Every saved target is reusable across skills and router outputs. Expand a card to inspect auth wiring, schema, and destination config."
          (button "Refresh integrations" false press_refresh)
          (each s.targets (target_card local_time s.expanded_target_id)
            & shown_if (is_nil s.targets && not s.loading_targets) (
                text
                  "No integrations saved yet. Create an OpenClaw or generic forward URL target above."))

-- setExpandedTargetID((current) => (current === target.id ? '' : target.id))
abbrev pub flip_expanded : Value → State → State
flip_expanded id s = record s {
  expanded_target_id = if strict_eq s.expanded_target_id id then str "" else id;
}

module _ ⦃js : Engine⦄ where
  unfoldable pub on_event : State → Event → Act State Unit
  unfolding edited
  on_event s (load_preset key) = set_state (apply_integration_preset key)
  on_event s (type_field f v) =
      set_state (λ t. record t { target_form = edited f (str v) t.target_form })
  on_event s (choose_enabled v) =
      set_state (λ t. record t { target_form = record t.target_form { enabled = v == "true" } })
  on_event s (toggle action) = set_state (toggle_action action)
  on_event s press_save = persist_target s.target_form s.editing_target_id
  on_event s press_reset = set_state reset_form
  on_event s press_refresh = fetch_targets
  on_event s (press_card id) = set_state (flip_expanded id)
  on_event s (press_edit target) = set_state (begin_edit_target target)
  on_event s (press_delete target) = delete_target target s.editing_target_id

  abbrev pub initial : State
  initial = record {
    targets = [];
    secrets = [];
    loading_targets = false;
    saving_target = false;
    notice = "";
    expanded_target_id = str "";
    editing_target_id = str "";
    target_form = default_target_form;
  }

  unfoldable pub integrations_tab : (Value → String) → Component State Event
  integrations_tab local_time = record {
    start = initial;
    opening = fetch_targets ∷ fetch_secrets ∷ [];
    view = integrations_view local_time;
    on = on_event;
    effect = NoEffect;
  }
