-- ===== src/Urls/Panel/Cards.antt =====
-- web/src/App.jsx, `UrlsTab`: the events of the tab, the card of a listener and the row of an identity.
use webhook_listener.Prelude.{Bool, false, not, String, ◌==◌, if◌then◌else◌}
use webhook_listener.Js.Value.{
  Value, undefined, str, prop, truthy, is_text, strict_eq, to_text, items, ◌or◌, ◌⧺◌,
}
use webhook_listener.Js.Dict.{get_or}
use webhook_listener.View.{View, ◌&◌, text, value, button, shown_if, each, is_nil}
use webhook_listener.View.Parts.{text_input, copy_button, status_badge}
use webhook_listener.Urls.State.{
  State, Draft, alias_of, key_of, draft_of, latest_secret, minted_url, minted_webhook_id,
}

pub data Event : Type 0 where
  type_alias choose_provider type_listener_id choose_action choose_mode type_secret : String → Event
  check_fallback : Bool → Event
  press_alias press_create refresh_listeners refresh_identities press_json : Event
  press_delete press_secret : Value → Event
  press_copy : (copy_key : String) → Event
  draft_mode type_draft : (key : String) → Draft → String → Event
  press_status : (id : Value) (next_status : String) → Event

-- What the tab gets from outside: its addresses, the mark of the last copy, and the dates and times
-- in the locale of the browser.
pub record Page : Type 0 where
  pub base_url : String
  pub mail_domain : String
  pub copied : String
  pub local_date : Value → String
  pub local_time : Value → String

-- createdSecret?.[name] || latestBackendSecret?.[name]
abbrev pub of_secrets : String → Value → State → Value
of_secrets name listener s =
    prop name (get_or (key_of listener) undefined s.secret_map)
    or prop name (latest_secret (key_of listener) s.secrets_history)

abbrev pub ingest_template : Page → Value → State → Value
ingest_template page listener s = str (
    page.base_url
    ⧺ "/ingest/"
    ⧺ to_text (prop "slug" s.user or str "[account]")
    ⧺ "/"
    ⧺ to_text (prop "provider" listener)
    ⧺ "/"
    ⧺ to_text (prop "listener_id" listener)
    ⧺ "/[secret]")

-- The mark of a copy names the listener by its id alone.
abbrev pub copy_key : String → Value → String
copy_key prefix listener = prefix ⧺ to_text (prop "listener_id" listener)

unfoldable pub history_row : Page → Value → View Event
history_row page s =
    let key = "listener-history-secret-" ⧺ to_text (prop "id" s) in
    value (prop "webhook_url" s)
    & value (prop "webhook_id" s)
    & text (page.local_date (prop "created_at" s))
    & shown_if (truthy (prop "secret_value" s))
        (value (prop "secret_value" s) & copy_button page.copied key (press_copy key))

unfoldable pub listener_urls : Page → State → Value → View Event
listener_urls page s listener =
    let alias = alias_of s.user "[userkey]" in
    let url_key = copy_key "listener-" listener in
    let id_key = copy_key "listener-id-" listener in
    let secret_key = copy_key "listener-secret-" listener in
    let secret = of_secrets "secret_value" listener s in
    value (minted_url listener alias page.base_url s)
    & copy_button page.copied url_key (press_copy url_key)
    & value (minted_webhook_id listener alias (str page.mail_domain) s)
    & copy_button page.copied id_key (press_copy id_key)
    & text
        "This webhook ID also works as the mailbox address for the separate SES mail ingress service."
    & shown_if (truthy secret)
        (value secret & copy_button page.copied secret_key (press_copy secret_key))
    & text "Legacy compatibility URLs"
    & text "Provider-aware ingest URL"
    & value (
        of_secrets "ingest_webhook_url" listener s
        or prop "ingest_webhook_url_template" listener
        or ingest_template page listener s)
    & text "Legacy type-key URL"
    & value (of_secrets "legacy_webhook_url" listener s or prop "legacy_webhook_url" listener)

unfoldable pub draft_fields : State → Value → View Event
draft_fields s listener =
    let key = key_of listener in
    let draft = draft_of key s.secret_composer in
    button "Generate automatically" false (draft_mode key draft "auto")
    & button "Set my own secret" false (draft_mode key draft "manual")
    & shown_if (draft.mode == "manual") (text_input draft.secret_value (type_draft key draft))

unfoldable pub listener_card : Page → State → Value → View Event
unfolding listener_urls draft_fields history_row
listener_card page s listener =
    let history = items (get_or (key_of listener) undefined s.secrets_history) in
    value (
      prop "listener_display_name" listener
      or str (to_text (prop "provider" listener) ⧺ " · " ⧺ to_text (prop "listener_id" listener)))
    & value (prop "deployment_mode" listener)
    & text " · "
    & value (prop "type_key" listener)
    & status_badge (str "ACTIVE")
    & button "Delete listener" false (press_delete listener)
    & listener_urls page s listener
    & shown_if (not (is_nil history))
        (text "Other Active Secrets" & each history (history_row page))
    & draft_fields s listener
    & button "Create Secret" false (press_secret listener)
    & button "JSON" false press_json

unfoldable pub identity_row : Page → (busy_id identity : Value) → View Event
identity_row page busy_id identity =
    let id = prop "id" identity in
    let status = prop "status" identity in
    let is_busy = strict_eq busy_id id in
    value (prop "email_address" identity)
    & value status
    & text "Secret: "
    & value (prop "secret_value" identity)
    & shown_if (truthy (prop "deleted_at" identity))
        (text ("Reserved for this account since " ⧺ page.local_time (prop "deleted_at" identity)))
    & shown_if (is_text status "active")
        (button (if is_busy then "BLOCKING..." else "Block") is_busy (press_status id "blocked"))
    & shown_if (is_text status "blocked")
        (button (if is_busy then "RESTORING..." else "Restore") is_busy (press_status id "active"))
    & shown_if (is_text status "deleted_tombstoned") (text "Recreate the same secret to restore")
