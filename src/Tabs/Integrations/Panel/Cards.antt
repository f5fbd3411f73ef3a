-- ===== src/Tabs/Integrations/Panel/Cards.antt =====
-- web/src/App.jsx, `IntegrationsTab`: the events of the tab, and the card of a saved target.
use webhook_listener.Prelude.{false, String, if◌then◌else◌}
use webhook_listener.Js.Value.{Value, str, obj, end, prop, truthy, strict_eq, items, ◌or◌, ◌⧺◌}
use webhook_listener.Js.Engine.{Engine}
use webhook_listener.Json.{
  pretty_json, target_record_details, target_config_from_record, object_from_json_text,
  array_from_json_text,
}
use webhook_listener.View.{View, ◌&◌, text, value, button, shown_if, each, is_nil}
use webhook_listener.View.Parts.{form_field, status_badge}
use webhook_listener.Tabs.Integrations.{TargetForm}

-- The fields of the form that hold a text.
pub data Field : Type 0 where
  target_key target_type purpose auth_type secret_ref header_name prefix query_param env_var : Field
  config schema secret_refs env_refs : Field

-- { ...current, [field]: v }
unfoldable pub edited : Field → Value → TargetForm → TargetForm
edited target_key v form = record form { target_key = v }
edited target_type v form = record form { target_type = v }
edited purpose v form = record form { purpose = v }
edited auth_type v form = record form { auth_type = v }
edited secret_ref v form = record form { auth_secret_ref = v }
edited header_name v form = record form { auth_header_name = v }
edited prefix v form = record form { auth_prefix = v }
edited query_param v form = record form { auth_query_param = v }
edited env_var v form = record form { auth_env_var = v }
edited config v form = record form { config_text = v }
edited schema v form = record form { schema_text = v }
edited secret_refs v form = record form { header_secret_refs_text = v }
edited env_refs v form = record form { header_env_refs_text = v }

pub data Event : Type 0 where
  load_preset toggle choose_enabled : String → Event
  type_field : Field → String → Event
  press_save press_reset press_refresh : Event
  press_card press_edit press_delete : Value → Event

module _ ⦃js : Engine⦄ (local_time : Value → String) where
  -- What an expanded card shows. `local_time` is the time in the locale of the browser.
  unfoldable pub target_details : Value → View Event
  target_details target =
      let details = target_record_details target in
      let actions = items (array_from_json_text (prop "allowed_actions_json" target)) in
      let auth = prop "auth" details or obj end in
      let created = prop "created_at" target in
      each actions (λ action. value action)
      & shown_if (is_nil actions) (text "default actions")
      & text ("Created: " ⧺ (if truthy created then local_time created else "Unknown"))
      & text "Target ID: "
      & value (prop "id" target)
      & text "Auth: "
      & value (prop "type" auth or str "none")
      & text "Secret Ref: "
      & value (prop "secret_ref" auth or str "none")
      & text "Env Override: "
      & value (prop "env_var" auth or str "none")
      & form_field "Config Snapshot" (text (pretty_json (target_config_from_record target)))
      & form_field "Header Secret Refs"
          (text (pretty_json (prop "header_secret_refs" details or obj end)))
      & form_field "Header Env Refs"
          (text (pretty_json (prop "header_env_refs" details or obj end)))
      & form_field "Schema Snapshot"
          (text (pretty_json (object_from_json_text (prop "schema_json" target))))
      & button "Edit Integration" false (press_edit target)
      & button "Delete" false (press_delete target)

  -- The card itself is pressed by a click or by a key.
  unfoldable pub target_card : Value → Value → View Event
  unfolding target_details
  target_card expanded target =
      button "" false (press_card (prop "id" target))
      & value (prop "target_key" target or prop "id" target)
      & value (prop "target_type" target)
      & text " · "
      & value (prop "purpose" target or str "No purpose yet")
      & status_badge (str (if truthy (prop "enabled" target) then "ACTIVE" else "LEARNING"))
      & shown_if (strict_eq expanded (prop "id" target)) (target_details target)
