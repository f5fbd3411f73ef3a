-- ===== src/Urls/Panel.antt =====
-- web/src/App.jsx, `UrlsTab`: what the tab shows, and what its controls do.
pub mod Cards
use webhook_listener.Urls.Panel.Cards.{
  press_status, press_secret, type_draft, draft_mode, press_copy, press_delete, press_create,
  check_fallback, choose_action, type_listener_id, type_secret, press_alias, refresh_listeners,
  refresh_identities, choose_provider, choose_mode, type_alias, Event, press_json, Page,
  listener_card, identity_row,
}
use webhook_listener.Prelude.{
  Bool, true, false, not, ◌&&◌, String, ◌==◌, List, [], ◌∷◌, if◌then◌else◌,
}
use webhook_listener.Js.Value.{Value, str, prop, is_text, to_text, ◌⧺◌}
use webhook_listener.Js.Dict.{put}
use webhook_listener.Js.Engine.{Engine}
use webhook_listener.Async.{Act, catch}
use webhook_listener.Async.Stage.{Component}
use webhook_listener.Async.Steps.{set_state, skip}
use webhook_listener.View.{
  View, nothing, ◌&◌, text, value, button, input, select, option, checkbox, shown_if, each, is_nil,
}
use webhook_listener.View.Parts.{
  panel, form_field, hinted_field, text_input, inline_notice, copy_text,
}
use webhook_listener.Urls.State.{State, Draft, initial, alias_of, follow_user, follow_profile}
use webhook_listener.Urls.Identities.{set_error, fetch_webhook_identities, change_identity_status}
use webhook_listener.Urls.Listeners.{
  load_all, delete_listener, create_listener, update_public_alias, create_secret,
}

abbrev pub provider_options : List String
provider_options =
    "github" ∷ "stripe" ∷ "slack" ∷ "resend" ∷ "shopify" ∷ "openai" ∷ "generic-json" ∷ []

abbrev pub forced_action_options : List String
forced_action_options =
    "store_mysql" ∷ "no_action" ∷ "manual_review" ∷ "forward_http" ∷ "forward_telegram"
    ∷ "slack_notify" ∷ "crm_upsert" ∷ "ticket_create" ∷ []

abbrev options_of : List String → View Event
options_of items = each items (λ item. option (str item) (str item))

unfoldable pub alias_panel : Page → State → View Event
alias_panel page s =
    let alias = to_text (alias_of s.user "[userkey]") in
    panel "Public Webhook Alias"
      "This alias becomes both the short webhook URL and the inbox identity for each active secret."
      nothing
      (hinted_field "Userkey" (input s.public_alias_draft type_alias)
          "Seeded from your current slug, globally unique, and editable later."
        & text ("Canonical URL: " ⧺ page.base_url ⧺ "/" ⧺ alias ⧺ ".[secret]")
        & text ("Inbox address: " ⧺ alias ⧺ ".[secret]@" ⧺ page.mail_domain)
        & text "Changing your userkey changes the canonical inbox address for future secrets too."
        & shown_if (not (s.alias_notice == "")) (inline_notice s.alias_notice)
        & shown_if (not (s.error == "")) (inline_notice s.error)
        & button (if s.alias_saving then "SAVING..." else "SAVE USERKEY") s.alias_saving
            press_alias)

unfoldable pub secret_choice : State → View Event
secret_choice s =
    text "Initial Secret"
    & button "Generate automatically" false (choose_mode "auto")
    & button "Set my own secret" false (choose_mode "manual")
    & shown_if (s.listener_secret_mode == "manual") (text_input s.listener_secret_value type_secret)

unfoldable pub create_panel : State → View Event
unfolding secret_choice
create_panel s =
    panel "Create Listener"
      "Provision a new ingress scenario directly from the UI, then bind it to a generated or custom secret. Listener deployment mode is controlled by this service's environment."
      nothing
      (hinted_field "Provider"
          (select (str s.provider) (options_of provider_options) choose_provider)
          "Choose a provider label or reuse one of the existing API-friendly options."
        & hinted_field "Listener ID" (text_input s.listener_id type_listener_id)
            "Optional. Leave blank to let the backend generate one."
        & form_field "Deployment Mode" (
            text (
              if is_text s.deployment_mode "single_tenant"
              then "Single-tenant (env controlled)"
              else "Multitenant (env controlled)"))
        & form_field "Default Action"
            (select (str s.plain_text_action) (options_of forced_action_options) choose_action)
        & checkbox "Use LLM fallback when deterministic logic is insufficient" s.use_llm_fallback
            (check_fallback (not s.use_llm_fallback))
        & secret_choice s
        & shown_if (not (s.error == "")) (inline_notice s.error)
        & button (if s.submitting then "CREATING..." else "CREATE LISTENER") s.submitting
            press_create)

unfoldable pub identities_panel : Page → State → View Event
unfolding identity_row
identities_panel page s =
    panel "Mailbox / Webhook ID Registry"
      "This exact-ID registry controls whether a short webhook ID or mailbox address is active, blocked, or reserved for your account."
      (button "Refresh identity registry" false refresh_identities)
      (each s.webhook_identities (identity_row page s.identity_busy_id)
        & shown_if (is_nil s.webhook_identities && not s.loading_identities) (
            text
              "No exact webhook identities tracked yet. Create a listener secret to activate both the short URL and mailbox ID."))

unfoldable pub urls_view : Page → List Value → State → View Event
unfolding alias_panel create_panel identities_panel listener_card
urls_view page listeners s =
    text "Webhook URLs"
    & alias_panel page s
    & create_panel s
    & panel "Configured URLs"
        "Each listener can mint a fresh secret-backed ingress URL using the short {userkey}.{secret} format."
        (button "Refresh listeners" false refresh_listeners)
        (shown_if s.loading_secrets
            (inline_notice "Refreshing listener secrets and URL placeholders...")
          & each listeners (listener_card page s)
          & shown_if (is_nil listeners) (
              text
                "No specific URLs configured yet. Create your first listener above to unlock secret-backed ingress URLs."))
    & identities_panel page s

module _ ⦃js : Engine⦄ (refresh : Act State Unit) where
  unfoldable pub on_event : State → Event → Act State Unit
  on_event s (type_alias v) = set_state (λ t. record t { public_alias_draft = str v })
  on_event s press_alias = update_public_alias refresh s.public_alias_draft
  on_event s (choose_provider v) = set_state (λ t. record t { provider = v })
  on_event s (type_listener_id v) = set_state (λ t. record t { listener_id = v })
  on_event s (choose_action v) = set_state (λ t. record t { plain_text_action = v })
  on_event s (check_fallback b) = set_state (λ t. record t { use_llm_fallback = b })
  on_event s (choose_mode mode) = set_state (λ t. record t { listener_secret_mode = mode })
  on_event s (type_secret v) = set_state (λ t. record t { listener_secret_value = v })
  on_event s press_create = create_listener refresh s
  on_event s refresh_listeners = catch refresh (λ e. set_state (set_error e))
  on_event s refresh_identities = catch fetch_webhook_identities (λ e. set_state (set_error e))
  on_event s (press_delete listener) = delete_listener refresh listener
  on_event s (press_copy key) = copy_text (λ k t. t) key
  on_event s (draft_mode key draft mode) =
      set_state (λ t. record t {
        secret_composer = put key (record draft { mode = mode }) t.secret_composer;
      })
  on_event s (type_draft key draft v) = set_state (λ t. record t {
    secret_composer = put key (record draft { secret_value = v }) t.secret_composer;
  })
  on_event s (press_secret listener) = create_secret s.secret_composer listener
  on_event s press_json = skip
  on_event s (press_status id next) = change_identity_status id next

-- The effects that follow the properties of the tab.
pub data Effect ⦃js : Engine⦄ : Act State Unit → Type 0 where
  on_listeners : (listeners : List Value) → Effect (load_all listeners)
  on_user : (user : Value) → Effect (set_state (follow_user user))
  on_profile : (profile : Value) → Effect (set_state (follow_profile profile))

module _ ⦃js : Engine⦄ where
  -- `user` and `profile` are the properties at the first render.
  unfoldable pub urls_tab :
      Page → (user profile : Value) → List Value → Act State Unit → Component State Event
  urls_tab page user profile listeners refresh = record {
    start = initial user profile;
    opening =
        set_state (follow_user user) ∷ set_state (follow_profile profile) ∷ load_all listeners ∷ [];
    view = urls_view page listeners;
    on = on_event refresh;
    effect = λ s a. Effect a;
  }
