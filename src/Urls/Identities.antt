-- ===== src/Urls/Identities.antt =====
-- The registry of webhook identities.
use webhook_listener.Prelude.{true, false, String, ◌==◌, if◌then◌else◌}
use webhook_listener.Js.Value.{Value, str, to_text, ◌⧺◌}
use webhook_listener.Js.Engine.{Engine}
use webhook_listener.Async.{Act, ◌>>=◌, ◌>>◌, catch, finally}
use webhook_listener.Async.Steps.{set_state, skip}
use webhook_listener.Api.{api_request, no_options, with_method, rows}
use webhook_listener.Urls.State.{State}

abbrev pub set_error : String → State → State
set_error e s = record s { error = e }

abbrev pub status_path : Value → String → String
status_path id next_status =
    if next_status == "blocked"
    then "/api/webhook-identities/" ⧺ to_text id ⧺ "/block"
    else "/api/webhook-identities/" ⧺ to_text id ⧺ "/restore"

module _ ⦃js : Engine⦄ where
  unfoldable pub fetch_webhook_identities : Act State Unit
  fetch_webhook_identities = do
    set_state (λ s. record s { loading_identities = true })
    finally
        (catch
          (do
            reply ← api_request "/api/webhook-identities" no_options
            set_state (λ s. record s { webhook_identities = rows reply }))
          (λ e. skip))
        (λ s. record s { loading_identities = false })

  unfoldable pub change_identity_status : Value → String → Act State Unit
  unfolding fetch_webhook_identities
  change_identity_status id next_status = do
    set_state (λ s. record s { identity_busy_id = id })
    set_state (set_error "")
    finally
        (catch
          (do
            api_request (status_path id next_status) (with_method "POST")
            fetch_webhook_identities)
          (λ e. set_state (set_error e)))
        (λ s. record s { identity_busy_id = str "" })
