-- ===== src/Tabs/Tokens/Panel.antt =====
-- web/src/App.jsx, `ApiTokensTab` and `HomeDashboard`: what they show, and what their controls do.
use webhook_listener.Tabs.Tokens.{fetch_tokens, initial, State, create_token, revoke_token}
use webhook_listener.Prelude.{false, not, String, [], ◌∷◌, if◌then◌else◌, ◌==◌, length}
use webhook_listener.Js.Value.{Value, str, prop, truthy, to_text, ◌or◌, ◌⧺◌}
use webhook_listener.Js.Decimal.{show}
use webhook_listener.Js.Engine.{Engine}
use webhook_listener.Async.{Act}
use webhook_listener.Async.Stage.{Component, NoEffect}
use webhook_listener.View.{View, nothing, ◌&◌, text, value, button, shown_if, each, is_nil}
use webhook_listener.View.Parts.{panel, inline_notice, copy_button, copy_text}

pub data Event : Type 0 where
  press_create press_copy : Event
  press_revoke : Value → Event

-- `last_8` is `id.slice(-8)`, and `local_date` the date of a time in the locale of the browser.
module _ (last_8 local_date : Value → String) where
  abbrev pub token_row : Value → View Event
  token_row t =
      text ("..." ⧺ last_8 (prop "id" t))
      & text (local_date (prop "created_at" t))
      & button "Revoke" false (press_revoke (prop "id" t))

  unfoldable pub tokens_view : (copied : String) → State → View Event
  tokens_view copied s =
      text "API Tokens"
      & panel "API Tokens" "Manage and generate tokens for curl, scripts, or direct API testing."
          nothing
          (shown_if (not (s.error == "")) (inline_notice s.error)
            & button (if s.token_busy then "CREATING..." else "CREATE API TOKEN") s.token_busy
                press_create
            & shown_if (truthy s.api_token) (
                text "New token created (copy now, won't be shown again)"
                & value s.api_token
                & copy_button copied "api-token" press_copy)
            & shown_if (not (is_nil s.api_tokens_list)) (
                text ("Active Tokens (" ⧺ show (length s.api_tokens_list) ⧺ ")")
                & each s.api_tokens_list token_row))

-- `heartbeat` is what `HeartbeatTab` shows.
unfoldable pub home_view :
    (user : Value) (heartbeat : View Event) (copied : String) → State → View Event
home_view user heartbeat copied s =
    text "Developer Console"
    & text ("Welcome back, " ⧺ to_text (prop "public_alias" user or str "Developer"))
    & text "Get your webhook infrastructure running autonomously."
    & text "1. Create API Token"
    & shown_if (not (s.error == "")) (inline_notice s.error)
    & button (if s.token_busy then "CREATING..." else "CREATE TOKEN") s.token_busy press_create
    & shown_if (truthy s.api_token) (
        text "New token created (copy now)"
        & value s.api_token
        & copy_button copied "home-api-token" press_copy)
    & shown_if (not (is_nil s.api_tokens_list))
        (text ("You have " ⧺ show (length s.api_tokens_list) ⧺ " active token(s)."))
    & text "2. Setup Heartbeat"
    & heartbeat

module _ ⦃js : Engine⦄ where
  -- The mark of a copy is a state of the console, not of the tab.
  unfoldable pub on_event : State → Event → Act State Unit
  on_event s press_create = create_token
  on_event s press_copy = copy_text (λ key t. t) "api-token"
  on_event s (press_revoke id) = revoke_token id

  module _ (last_8 local_date : Value → String) (copied : String) where
    unfoldable pub tokens_tab : Component State Event
    tokens_tab = record {
      start = initial;
      opening = fetch_tokens ∷ [];
      view = tokens_view last_8 local_date copied;
      on = on_event;
      effect = NoEffect;
    }
