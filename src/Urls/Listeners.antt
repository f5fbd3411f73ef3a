-- ===== src/Urls/Listeners.antt =====
-- Listing, creating and deleting listeners and their secrets. `refresh` is the property `onRefresh`.
use webhook_listener.Prelude.{true, false, not, String, List, [], ◌∷◌, map, if◌then◌else◌}
use webhook_listener.Js.Value.{
  Value, str, bool, arr, nil, obj, end, field, prop, to_text, ◌or◌, ◌⧺◌,
}
use webhook_listener.Js.Dict.{Dict, put, remove}
use webhook_listener.Js.Engine.{Engine}
use webhook_listener.Async.{Act, pure, ◌>>=◌, ◌>>◌, catch, finally, settle_both}
use webhook_listener.Async.Steps.{set_state, skip, from_result, confirm, trim_value}
use webhook_listener.Api.{api_request, no_options, with_method, with_body}
use webhook_listener.Urls.State.{State, Draft, key_of, draft_of, chosen_secret}
use webhook_listener.Urls.Identities.{set_error, fetch_webhook_identities}

-- Promise.allSettled(acts)
unfoldable pub settle_all : List (Act State Unit) → Act State Unit
settle_all [] = pure tt
settle_all (m ∷ ms) = settle_both m (settle_all ms)

abbrev pub listener_body : State → Value
listener_body s = obj (
    field "provider" (str s.provider) (
      field "listener_id" (str s.listener_id) (
        field "deployment_mode" s.deployment_mode (
          field "plain_text_action" (str s.plain_text_action) (
            field "use_llm_fallback" (bool s.use_llm_fallback) (
              field "secret_value"
                (str (chosen_secret s.listener_secret_mode s.listener_secret_value)) end))))))

abbrev pub listener_path : Value → String
listener_path listener =
    "/v1/listeners/"
    ⧺ to_text (prop "listener_id" listener)
    ⧺ "?provider="
    ⧺ to_text (prop "provider" listener)

abbrev pub secrets_path : Value → String
secrets_path listener = "/v1/listeners/" ⧺ to_text (prop "listener_id" listener) ⧺ "/secrets"

abbrev pub secret_body : Value → Draft → Value
secret_body listener draft = obj (
    field "provider" (prop "provider" listener)
      (field "secret_value" (str (chosen_secret draft.mode draft.secret_value)) end))

module _ ⦃js : Engine⦄ where
  unfoldable pub fetch_secrets : Value → Act State Unit
  fetch_secrets listener =
      catch
        (do
          reply ←
              api_request
                (secrets_path listener ⧺ "?provider=" ⧺ to_text (prop "provider" listener))
                no_options
          set_state (λ s. record s {
            secrets_history = put (key_of listener) (reply or arr nil) s.secrets_history;
          }))
        (λ e. skip)

  -- The effect on the listeners: the identities, and the secrets of all listeners, side by side.
  unfoldable pub load_all : List Value → Act State Unit
  unfolding settle_all fetch_secrets
  load_all [] = fetch_webhook_identities
  load_all (l ∷ ls) = settle_both fetch_webhook_identities (do
    set_state (λ s. record s { loading_secrets = true })
    finally (settle_all (map fetch_secrets (l ∷ ls))) (λ s. record s { loading_secrets = false }))

  unfoldable pub delete_listener : Act State Unit → Value → Act State Unit
  unfolding fetch_webhook_identities
  delete_listener refresh listener = do
    yes_delete ← confirm (
        "Delete listener \""
        ⧺ to_text (prop "listener_id" listener)
        ⧺ "\" ("
        ⧺ to_text (prop "provider" listener)
        ⧺ ")? This will revoke all its secrets.")
    if not yes_delete
        then skip
        else catch
            (do
              api_request (listener_path listener) (with_method "DELETE")
              set_state
                  (λ s. record s { secrets_history = remove (key_of listener) s.secrets_history })
              refresh
              fetch_webhook_identities)
            (λ e. set_state (set_error ("Failed to delete listener: " ⧺ e)))

  -- The form that the closure captured is that of `captured`.
  unfoldable pub create_listener : Act State Unit → State → Act State Unit
  unfolding fetch_webhook_identities
  create_listener refresh captured = do
    set_state (λ s. record s { submitting = true })
    set_state (set_error "")
    finally
        (catch
          (do
            created ←
                api_request "/v1/listeners"
                  (with_body "POST" (js.stringify (listener_body captured)))
            set_state (λ s. record s { secret_map = put (key_of created) created s.secret_map })
            set_state (λ s. record s { listener_id = "" })
            set_state (λ s. record s { listener_secret_value = "" })
            set_state (λ s. record s { listener_secret_mode = "auto" })
            refresh
            fetch_webhook_identities)
          (λ e. set_state (set_error e)))
        (λ s. record s { submitting = false })

  unfoldable pub update_public_alias : Act State Unit → Value → Act State Unit
  update_public_alias refresh draft = do
    set_state (λ s. record s { alias_saving = true })
    set_state (λ s. record s { alias_notice = "" })
    set_state (set_error "")
    finally
        (catch
          (do
            alias ← from_result (trim_value draft)
            updated ←
                api_request "/api/me"
                  (with_body "PUT" (js.stringify (obj (field "public_alias" (str alias) end))))
            set_state (λ s. record s { user = updated })
            set_state (λ s. record s { alias_notice = "Public webhook alias saved." })
            refresh)
          (λ e. set_state (set_error e)))
        (λ s. record s { alias_saving = false })

  -- `composer` is the dictionary of drafts that the closure captured.
  unfoldable pub create_secret : Dict Draft → Value → Act State Unit
  unfolding fetch_secrets fetch_webhook_identities
  create_secret composer listener =
      catch
        (do
          created ← api_request (secrets_path listener) (
              with_body "POST"
                (js.stringify (secret_body listener (draft_of (key_of listener) composer))))
          set_state (λ s. record s { secret_map = put (key_of listener) created s.secret_map })
          set_state (λ s. record s {
            secret_composer =
                put (key_of listener) (record { mode = "auto"; secret_value = "" })
                  s.secret_composer;
          })
          fetch_secrets listener
          fetch_webhook_identities)
        (λ e. set_state (set_error e))
