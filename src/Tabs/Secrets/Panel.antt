-- ===== src/Tabs/Secrets/Panel.antt =====
-- web/src/App.jsx, `IntegrationSecretsTab`: what the tab shows, and what its controls do.
use webhook_listener.Tabs.Secrets.{
  initial, State, SecretForm, has_single_tenant, reset_form, begin_edit_secret, fetch_secrets,
  persist_secret, delete_secret,
}
use webhook_listener.Prelude.{Bool, false, not, ◌&&◌, String, ◌==◌, List, [], ◌∷◌, if◌then◌else◌}
use webhook_listener.Js.Value.{Value, str, prop, truthy, ◌or◌}
use webhook_listener.Js.Engine.{Engine}
use webhook_listener.Async.{Act}
use webhook_listener.Async.Steps.{set_state}
use webhook_listener.Async.Stage.{Component, NoEffect}
use webhook_listener.View.{View, nothing, ◌&◌, text, value, button, input, each, shown_if, is_nil}
use webhook_listener.View.Parts.{panel, form_field, hinted_field, inline_notice}

pub data Event : Type 0 where
  type_key type_purpose type_value : String → Event
  press_save press_cancel press_refresh : Event
  press_rotate press_delete : Value → Event

abbrev pub edit_form : (SecretForm → SecretForm) → State → State
edit_form g s = record s { secret_form = g s.secret_form }

-- {secrets.map((secret) => …)}
abbrev pub secret_row : Value → View Event
secret_row secret =
    value (prop "secret_key" secret)
    & value (prop "purpose" secret or str "No purpose provided")
    & button "Rotate" false (press_rotate secret)
    & button "Delete" false (press_delete secret)

abbrev pub value_label : Value → String
value_label editing = if truthy editing then "Rotate Secret Value (optional)" else "Secret Value"

abbrev pub save_label : Bool → Value → String
save_label saving editing =
    if saving then "SAVING..." else if truthy editing then "SAVE SECRET" else "CREATE SECRET"

abbrev pub tenancy_text : List Value → String
tenancy_text listeners =
    if has_single_tenant listeners
    then "Single-tenant listeners can auto-resolve conventional env vars when no secret ref is attached. Multitenant listeners should still prefer named secret refs."
    else "This deployment is multitenant right now, so integrations should attach named secret refs. Env fallback stays an operator override only."

abbrev pub secret_panel : List Value → State → View Event
secret_panel listeners s =
    panel "Secret Registry"
      "Store named secret refs for OpenClaw, CRMs, and any downstream integration without exposing raw credentials in target config."
      nothing
      (inline_notice (tenancy_text listeners)
        & hinted_field "Secret Key" (input s.secret_form.secret_key type_key)
            "Stable reference like openclaw_api_key or crm_bearer_token."
        & form_field "Purpose" (input s.secret_form.purpose type_purpose)
        & form_field (value_label s.editing_secret_id) (input s.secret_form.secret_value type_value)
        & shown_if (not (s.notice == "")) (inline_notice s.notice)
        & button (save_label s.saving_secret s.editing_secret_id) s.saving_secret press_save
        & shown_if (truthy s.editing_secret_id) (button "Cancel" false press_cancel))

abbrev pub registry_panel : State → View Event
registry_panel s =
    panel "Saved Secret Refs"
      "Reference these keys from integration targets instead of embedding tokens directly in config JSON."
      (button "Refresh secret refs" false press_refresh)
      (each s.secrets secret_row
        & shown_if (is_nil s.secrets && not s.loading_secrets)
            (text "No integration secrets saved yet."))

unfoldable pub secrets_view : List Value → State → View Event
secrets_view listeners s = text "Integration Secrets" & secret_panel listeners s & registry_panel s

module _ ⦃js : Engine⦄ where
  -- `s` is the state that the closures of the render captured.
  unfoldable pub on_event : State → Event → Act State Unit
  on_event s (type_key v) = set_state (edit_form (λ f. record f { secret_key = str v }))
  on_event s (type_purpose v) = set_state (edit_form (λ f. record f { purpose = str v }))
  on_event s (type_value v) = set_state (edit_form (λ f. record f { secret_value = str v }))
  on_event s press_save = persist_secret s.secret_form s.editing_secret_id
  on_event s press_cancel = set_state reset_form
  on_event s press_refresh = fetch_secrets
  on_event s (press_rotate secret) = set_state (begin_edit_secret secret)
  on_event s (press_delete secret) = delete_secret secret s.editing_secret_id

  unfoldable pub secrets_tab : List Value → Component State Event
  secrets_tab listeners = record {
    start = initial;
    opening = fetch_secrets ∷ [];
    view = secrets_view listeners;
    on = on_event;
    effect = NoEffect;
  }
