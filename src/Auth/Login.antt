-- ===== src/Auth/Login.antt =====
-- The form that takes the credential of a single-tenant deployment.
pub mod Form
use webhook_listener.Prelude.{Bool, true, false, String, Option, none, some, if◌then◌else◌}
use webhook_listener.Js.Value.{Value, prop, is_text}
use webhook_listener.Async.{Act, ◌>>◌, catch, finally}
use webhook_listener.Async.Steps.{set_state}

pub record State : Type 0 where
  pub credential : String
  pub busy : Bool
  pub local_error : String

-- The credential starts as the query parameter `claim_code`.
abbrev pub initial : Option String → State
initial none = record { credential = ""; busy = false; local_error = "" }
initial (some code) = record { credential = code; busy = false; local_error = "" }

-- The label of the field, by the mode of the profile.
unfoldable pub credential_label : Value → String
credential_label profile =
    if is_text (prop "auth_mode" profile) "single_tenant_setup_token"
    then "Setup Token"
    else if is_text (prop "auth_mode" profile) "single_tenant_claim"
    then "One-time Claim Code"
    else "Admin Secret"

-- `login` is the session's, and runs beside this form's state.
unfoldable pub submit : (String → Act State Value) → String → Act State Unit
submit login credential = do
  set_state (λ s. record s { busy = true })
  set_state (λ s. record s { local_error = "" })
  finally
      (catch (do login credential; set_state (λ s. record s { credential = "" }))
        (λ e. set_state (λ s. record s { local_error = e })))
      (λ s. record s { busy = false })
