-- ===== src/Tabs/Integrations.antt =====
-- web/src/App.jsx, `IntegrationsTab`: the targets that events are forwarded to.
pub mod Flight
pub mod Form
pub mod Panel
pub mod Payload
pub mod Presets
pub mod Saving
use webhook_listener.Prelude.{
  Bool, true, false, not, String, ◌==◌, List, [], ◌∷◌, ◌++◌, none, some, if◌then◌else◌, any, filter,
}
use webhook_listener.Js.Value.{
  Value, str, bool, arr, obj, end, field, prop, truthy, is_text, is_bool, strict_eq, to_text, items,
  of_list, ◌or◌, ◌⧺◌,
}
use webhook_listener.Js.Text.{trim}
use webhook_listener.Js.Engine.{Engine}
use webhook_listener.Json.{
  pretty_json, parse_object_or_throw, target_record_details, target_config_from_record,
  object_from_json_text, array_from_json_text,
}
use webhook_listener.Async.{Act, ◌>>=◌, ◌>>◌, catch, finally, Result, ok, err}
use webhook_listener.Async.Steps.{set_state, skip, from_result, confirm, trim_value}
use webhook_listener.Api.{api_request, no_options, with_method, with_body, rows}

pub record TargetForm : Type 0 where
  pub target_key : Value
  pub target_type : Value
  pub purpose : Value
  pub enabled : Bool
  pub allowed_actions : List Value
  pub auth_type : Value
  pub auth_secret_ref : Value
  pub auth_header_name : Value
  pub auth_prefix : Value
  pub auth_query_param : Value
  pub auth_env_var : Value
  pub config_text : Value
  pub schema_text : Value
  pub header_secret_refs_text : Value
  pub header_env_refs_text : Value

pub record State : Type 0 where
  pub targets : List Value
  pub secrets : List Value
  pub loading_targets : Bool
  pub saving_target : Bool
  pub notice : String
  pub expanded_target_id : Value
  pub editing_target_id : Value
  pub target_form : TargetForm

abbrev pub set_notice : String → State → State
set_notice text s = record s { notice = text }

-- The config of a new form.
abbrev pub example_config : Value
example_config = obj (
    field "url" (str "https://example.com/webhook") (
      field "method" (str "POST")
        (field "headers" (obj (field "x-agenthook-source" (str "listener") end)) end)))

-- current.allowed_actions.includes(action)
abbrev pub includes : String → List Value → Bool
includes action actions = any (λ a. is_text a action) actions

abbrev pub toggled : String → List Value → List Value
toggled action actions =
    if includes action actions
    then filter (λ a. not (is_text a action)) actions
    else actions ++ str action ∷ []

unfoldable pub toggle_action : String → State → State
toggle_action action s = record s {
  target_form = record s.target_form {
    allowed_actions = toggled action s.target_form.allowed_actions;
  };
}

-- allowedActions.length ? allowedActions : ['forward_http']
abbrev pub or_forward : List Value → List Value
or_forward [] = str "forward_http" ∷ []
or_forward (a ∷ as') = a ∷ as'

abbrev pub target_path : Value → String
target_path editing =
    if truthy editing then "/api/forward-targets/" ⧺ to_text editing else "/api/forward-targets"

abbrev pub save_method : Value → String
save_method editing = if truthy editing then "PUT" else "POST"

-- The shared steps of a chain that may throw.
infixl 5 ◌then_ok◌
abbrev pub ◌then_ok◌ : {A B : Type 0} → Result A → (A → Result B) → Result B
ok a then_ok f = f a
err e then_ok f = err e

abbrev pub sent_type : Value → Value
sent_type type = if is_text type "openclaw" then str "http" else type

abbrev pub sent_auth : TargetForm → Value
sent_auth form = obj (
    field "type" (if is_text form.auth_type "none" then str "" else form.auth_type) (
      field "secret_ref" form.auth_secret_ref (
        field "header_name" form.auth_header_name (
          field "prefix" form.auth_prefix
            (field "query_param" form.auth_query_param (field "env_var" form.auth_env_var end))))))

-- The payload of `persistTarget`, once its four JSON fields are parsed.
unfoldable pub payload_of : TargetForm → Value → Value → Value → Value → Value
payload_of form config schema secret_refs env_refs = obj (
    field "target_key" form.target_key (
      field "target_type" (sent_type form.target_type) (
        field "purpose" form.purpose (
          field "enabled" (bool form.enabled) (
            field "allowed_actions" (arr (of_list form.allowed_actions)) (
              field "config" config (
                field "schema" schema (
                  field "auth" (sent_auth form) (
                    field "header_secret_refs" secret_refs
                      (field "header_env_refs" env_refs end))))))))))

module _ ⦃js : Engine⦄ where
  abbrev pub default_target_form : TargetForm
  default_target_form = record {
    target_key = str "";
    target_type = str "http";
    purpose = str "";
    enabled = true;
    allowed_actions = str "forward_http" ∷ [];
    auth_type = str "none";
    auth_secret_ref = str "";
    auth_header_name = str "";
    auth_prefix = str "";
    auth_query_param = str "";
    auth_env_var = str "";
    config_text = str (pretty_json example_config);
    schema_text = str (pretty_json (obj end));
    header_secret_refs_text = str (pretty_json (obj end));
    header_env_refs_text = str (pretty_json (obj end));
  }

  abbrev pub reset_form : State → State
  reset_form s = record s { editing_target_id = str ""; target_form = default_target_form }

  -- The part of `persistTarget` that builds and checks the payload, in its order.
  unfoldable pub target_payload : TargetForm → Result Value
  unfolding payload_of
  target_payload form = parse_object_or_throw form.config_text "Config JSON" then_ok λ config.
      parse_object_or_throw form.schema_text "Schema JSON" then_ok λ schema.
      parse_object_or_throw form.header_secret_refs_text "Header secret refs JSON"
      then_ok λ secret_refs.
          parse_object_or_throw form.header_env_refs_text "Header env refs JSON" then_ok λ env_refs.
          trim_value form.target_key then_ok λ key.
          if key == ""
          then err "target_key is required"
          else ok (payload_of form config schema secret_refs env_refs)

  unfoldable pub fetch_targets : Act State Unit
  fetch_targets = do
    set_state (λ s. record s { loading_targets = true })
    finally
        (catch
          (do
            reply ← api_request "/api/forward-targets" no_options
            set_state (λ s. record s { targets = rows reply }))
          (λ e. set_state (set_notice e)))
        (λ s. record s { loading_targets = false })

  unfoldable pub fetch_secrets : Act State Unit
  fetch_secrets =
      catch
        (do
          reply ← api_request "/api/integration-secrets" no_options
          set_state (λ s. record s { secrets = rows reply }))
        (λ e. set_state (set_notice e))

  unfoldable pub persist_target : TargetForm → Value → Act State Unit
  unfolding fetch_targets
  persist_target form editing = do
    set_state (λ s. record s { saving_target = true })
    set_state (set_notice "")
    finally
        (catch
          (do
            payload ← from_result (target_payload form)
            api_request (target_path editing)
                (with_body (save_method editing) (js.stringify payload))
            fetch_targets
            set_state reset_form
            set_state (
                set_notice (
                  "Integration "
                  ⧺ (if save_method editing == "POST" then "created" else "updated")
                  ⧺ " successfully.")))
          (λ e. set_state (set_notice e)))
        (λ s. record s { saving_target = false })

  -- The form that `beginEditTarget` fills from a row.
  unfoldable pub form_of_target : Value → TargetForm
  form_of_target target =
      let details = target_record_details target in
      let auth = prop "auth" details or obj end in
      record {
        target_key = prop "target_key" target or str "";
        target_type = prop "target_type" target or str "http";
        purpose = prop "purpose" target or str "";
        enabled = not (is_bool (prop "enabled" target) false);
        allowed_actions =
            or_forward (items (array_from_json_text (prop "allowed_actions_json" target)));
        auth_type = prop "type" auth or str "none";
        auth_secret_ref = prop "secret_ref" auth or str "";
        auth_header_name = prop "header_name" auth or str "";
        auth_prefix = prop "prefix" auth or str "";
        auth_query_param = prop "query_param" auth or str "";
        auth_env_var = prop "env_var" auth or str "";
        config_text = str (pretty_json (target_config_from_record target));
        schema_text = str (pretty_json (object_from_json_text (prop "schema_json" target)));
        header_secret_refs_text = str (pretty_json (prop "header_secret_refs" details or obj end));
        header_env_refs_text = str (pretty_json (prop "header_env_refs" details or obj end));
      }

  unfoldable pub begin_edit_target : Value → State → State
  unfolding form_of_target
  begin_edit_target target s = record s {
    editing_target_id = prop "id" target;
    expanded_target_id = prop "id" target;
    target_form = form_of_target target;
  }

  unfoldable pub delete_target : Value → Value → Act State Unit
  unfolding fetch_targets
  delete_target target editing = do
    yes_delete ←
        confirm
          ("Delete integration \"" ⧺ to_text (prop "target_key" target or prop "id" target) ⧺ "\"?")
    if not yes_delete
        then skip
        else catch
            (do
              api_request ("/api/forward-targets/" ⧺ to_text (prop "id" target))
                  (with_method "DELETE")
              if strict_eq editing (prop "id" target) then set_state reset_form else skip
              fetch_targets
              set_state (set_notice "Integration deleted."))
            (λ e. set_state (set_notice e))
