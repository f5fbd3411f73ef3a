-- ===== src/Urls/State.antt =====
-- The state of the URLs tab, and what it shows of a listener.
use webhook_listener.Prelude.{Bool, true, false, String, ◌==◌, List, [], ◌∷◌, if◌then◌else◌}
use webhook_listener.Js.Value.{Value, undefined, str, prop, to_text, items, ◌or◌, ◌⧺◌}
use webhook_listener.Js.Text.{trim}
use webhook_listener.Js.Dict.{Dict, get_or}
use webhook_listener.Profile.{listener_ingress_template, listener_webhook_id_template}

pub record Draft : Type 0 where
  pub mode : String
  pub secret_value : String

-- `user` is the state of the console that the property `setUser` writes.
pub record State : Type 0 where
  pub provider : String
  pub listener_id : String
  pub deployment_mode : Value
  pub plain_text_action : String
  pub use_llm_fallback : Bool
  pub listener_secret_mode : String
  pub listener_secret_value : String
  pub submitting : Bool
  pub error : String
  pub secret_map : Dict Value
  pub secrets_history : Dict Value
  pub webhook_identities : List Value
  pub loading_identities : Bool
  pub identity_busy_id : Value
  pub loading_secrets : Bool
  pub secret_composer : Dict Draft
  pub public_alias_draft : Value
  pub alias_saving : Bool
  pub alias_notice : String
  pub user : Value

-- user?.public_alias || user?.slug || fallback
abbrev pub alias_of : Value → String → Value
alias_of user fallback = prop "public_alias" user or prop "slug" user or str fallback

abbrev pub mode_of : Value → Value
mode_of profile = prop "deployment_mode" profile or str "multitenant"

-- The state that `useState` starts from.
abbrev pub initial : Value → Value → State
initial user profile = record {
  provider = "github";
  listener_id = "";
  deployment_mode = mode_of profile;
  plain_text_action = "store_mysql";
  use_llm_fallback = true;
  listener_secret_mode = "auto";
  listener_secret_value = "";
  submitting = false;
  error = "";
  secret_map = [];
  secrets_history = [];
  webhook_identities = [];
  loading_identities = false;
  identity_busy_id = str "";
  loading_secrets = false;
  secret_composer = [];
  public_alias_draft = alias_of user "";
  alias_saving = false;
  alias_notice = "";
  user = user;
}

-- The effects on the user and on the profile.
unfoldable pub follow_user : Value → State → State
follow_user user s = record s { public_alias_draft = alias_of user "" }

unfoldable pub follow_profile : Value → State → State
follow_profile profile s = record s { deployment_mode = mode_of profile }

-- `${provider}:${listener_id}`
unfoldable pub listener_key : Value → Value → String
listener_key provider id = to_text provider ⧺ String.◌∷◌ ":" (to_text id)

abbrev pub key_of : Value → String
key_of listener = listener_key (prop "provider" listener) (prop "listener_id" listener)

-- secretComposer[key] || { mode: 'auto', secret_value: '' }
unfoldable pub draft_of : String → Dict Draft → Draft
draft_of key composer = get_or key (record { mode = "auto"; secret_value = "" }) composer

-- draft.mode === 'manual' ? draft.secret_value.trim() : ''
unfoldable pub chosen_secret : String → String → String
chosen_secret mode value = if mode == "manual" then trim value else ""

-- (secretsHistory[key] || [])[0]
abbrev pub latest_secret : String → Dict Value → Value
latest_secret key history = elim (items (get_or key undefined history)) [
  | [] ↦ undefined
  | s ∷ rest ↦ s
]

-- The address that is shown for a listener: of the secret made in this session, else of the newest
-- one that the server lists, else the template.
unfoldable pub minted_url : Value → Value → String → State → Value
minted_url listener alias base_url s =
    prop "webhook_url" (get_or (key_of listener) undefined s.secret_map)
    or prop "webhook_url" (latest_secret (key_of listener) s.secrets_history)
    or listener_ingress_template listener alias base_url

unfoldable pub minted_webhook_id : Value → Value → Value → State → Value
minted_webhook_id listener alias mail_domain s =
    prop "webhook_id" (get_or (key_of listener) undefined s.secret_map)
    or prop "webhook_id" (latest_secret (key_of listener) s.secrets_history)
    or listener_webhook_id_template listener alias mail_domain
