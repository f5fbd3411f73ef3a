-- ===== src/Tabs/Secrets.antt =====
-- web/src/App.jsx, `IntegrationSecretsTab`: the registry of named secrets.
pub mod Laws
pub mod Panel
pub mod Flight
use webhook_listener.Prelude.{
  Bool, true, false, not, ◌&&◌, String, ◌==◌, List, [], ◌∷◌, none, some, if◌then◌else◌, any,
}
use webhook_listener.Js.Value.{
  Value, str, obj, end, field, prop, truthy, is_text, strict_eq, to_text, ◌or◌, ◌⧺◌,
}
use webhook_listener.Js.Text.{trim}
use webhook_listener.Js.Engine.{Engine}
use webhook_listener.Async.{Act, ◌>>=◌, ◌>>◌, catch, finally}
use webhook_listener.Async.Steps.{set_state, skip, throw_if, from_result, confirm, trim_value}
use webhook_listener.Api.{api_request, no_options, with_method, with_body, rows}

pub record SecretForm : Type 0 where
  pub secret_key : Value
  pub purpose : Value
  pub secret_value : Value

pub record State : Type 0 where
  pub secrets : List Value
  pub loading_secrets : Bool
  pub saving_secret : Bool
  pub notice : String
  pub editing_secret_id : Value
  pub secret_form : SecretForm

abbrev pub default_secret_form : SecretForm
default_secret_form = record { secret_key = str ""; purpose = str ""; secret_value = str "" }

-- The state that `useState` starts from.
abbrev pub initial : State
initial = record {
  secrets = [];
  loading_secrets = false;
  saving_secret = false;
  notice = "";
  editing_secret_id = str "";
  secret_form = default_secret_form;
}

abbrev pub has_single_tenant : List Value → Bool
has_single_tenant listeners =
    any (λ l. is_text (prop "deployment_mode" l) "single_tenant") listeners

-- The form as `JSON.stringify` gets it.
abbrev pub form_value : SecretForm → Value
form_value form = obj (
    field "secret_key" form.secret_key
      (field "purpose" form.purpose (field "secret_value" form.secret_value end)))

abbrev pub set_notice : String → State → State
set_notice text s = record s { notice = text }

abbrev pub reset_form : State → State
reset_form s = record s { editing_secret_id = str ""; secret_form = default_secret_form }

unfoldable pub begin_edit_secret : Value → State → State
begin_edit_secret secret s = record s {
  editing_secret_id = prop "id" secret;
  secret_form = record {
    secret_key = prop "secret_key" secret or str "";
    purpose = prop "purpose" secret or str "";
    secret_value = str "";
  };
}

-- Where the form is sent, and how: to the row that is edited, or to the collection.
abbrev pub secret_path : Value → String
secret_path editing =
    if truthy editing
    then "/api/integration-secrets/" ⧺ to_text editing
    else "/api/integration-secrets"

abbrev pub save_method : Value → String
save_method editing = if truthy editing then "PUT" else "POST"

module _ ⦃js : Engine⦄ where
  unfoldable pub fetch_secrets : Act State Unit
  fetch_secrets = do
    set_state (λ s. record s { loading_secrets = true })
    finally
        (catch
          (do
            reply ← api_request "/api/integration-secrets" no_options
            set_state (λ s. record s { secrets = rows reply }))
          (λ e. set_state (set_notice e)))
        (λ s. record s { loading_secrets = false })

  -- The checks of `persistSecret`: a key always, a value only for a new secret.
  unfoldable pub check_form : SecretForm → Value → Act State Unit
  check_form form editing = do
    key ← from_result (trim_value form.secret_key)
    throw_if (key == "") "secret_key is required"
    if truthy editing then skip else do
      value ← from_result (trim_value form.secret_value)
      throw_if (value == "") "secret_value is required"

  unfoldable pub persist_secret : SecretForm → Value → Act State Unit
  unfolding check_form fetch_secrets
  persist_secret form editing = do
    set_state (λ s. record s { saving_secret = true })
    set_state (set_notice "")
    finally
        (catch
          (do
            check_form form editing
            api_request (secret_path editing)
                (with_body (save_method editing) (js.stringify (form_value form)))
            fetch_secrets
            set_state reset_form
            set_state (
                set_notice (
                  "Integration secret "
                  ⧺ (if save_method editing == "POST" then "created" else "updated")
                  ⧺ " successfully.")))
          (λ e. set_state (set_notice e)))
        (λ s. record s { saving_secret = false })

  -- `editing` is the id under edit that the handler's closure captured.
  unfoldable pub delete_secret : Value → Value → Act State Unit
  unfolding fetch_secrets
  delete_secret secret editing = do
    yes_delete ←
        confirm ("Delete integration secret \"" ⧺ to_text (prop "secret_key" secret) ⧺ "\"?")
    if not yes_delete
        then skip
        else catch
            (do
              api_request ("/api/integration-secrets/" ⧺ to_text (prop "id" secret))
                  (with_method "DELETE")
              if strict_eq editing (prop "id" secret) then set_state reset_form else skip
              fetch_secrets
              set_state (set_notice "Integration secret deleted."))
            (λ e. set_state (set_notice e))
