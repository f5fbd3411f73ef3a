-- ===== src/Pages.antt =====
-- web/src/App.jsx: the booking address of the enterprise page, the command of the heartbeat page, and
-- the handlers of the home page.
pub mod Metrics
pub mod Heartbeat
use webhook_listener.Prelude.{
  Bool, String, ◌==◌, List, [], ◌∷◌, ◌++◌, if◌then◌else◌, Char, code, nat_eq,
}
use webhook_listener.Js.Value.{Value, str, ◌⧺◌}
use webhook_listener.Js.Text.{trim, has_char}
use webhook_listener.Js.Engine.{Engine}
use webhook_listener.Profile.{app_base_url, map_ok}
use webhook_listener.Async.{Result, Act}
use webhook_listener.Tabs.Tokens
use webhook_listener.Tabs.Tokens.{fetch_tokens, create_token}

pub record EnterpriseForm : Type 0 where
  pub name : String
  pub email : String
  pub company : String
  pub use_case : String

-- if (text) params.set(key, text)
abbrev param : String → String → List (String × String)
param key text = if text == "" then [] else (key, text) ∷ []

-- [a, b].filter(Boolean).join(' | ')
abbrev joined_notes : String → String → String
joined_notes a b = if a == "" then b else if b == "" then a else a ⧺ " | " ⧺ b

abbrev is_question : Char → Bool
is_question c = nat_eq (code c) b'?'

module _ ⦃js : Engine⦄ where
  unfoldable pub enterprise_prefill_url : String → EnterpriseForm → String
  unfolding trim
  enterprise_prefill_url base form =
      let query = js.query (
        param "name" (trim form.name)
        ++ param "email" (trim form.email)
        ++ param "notes" (joined_notes (trim form.company) (trim form.use_case))) in
      if query == "" then base else base ⧺ (if has_char is_question base then "&" else "?") ⧺ query

  unfoldable pub setup_command : Value → Result Value
  unfolding app_base_url
  setup_command profile =
      map_ok (app_base_url profile)
        (λ base. str ("curl -sSL " ⧺ base ⧺ "/setup_hermes_heartbeat.sh | bash"))

  -- The handlers of `HomeDashboard` repeat those of `ApiTokensTab`, on the same five hooks.
  unfoldable pub home_fetch_tokens : Act Tokens.State Unit
  unfolding fetch_tokens
  home_fetch_tokens = fetch_tokens

  unfoldable pub home_create_token : Act Tokens.State Unit
  unfolding create_token
  home_create_token = create_token
