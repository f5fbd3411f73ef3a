-- ===== src/Profile.antt =====
-- web/src/App.jsx: the profile of the deployment, and the public addresses built from it.
pub mod Laws
use webhook_listener.Prelude.{Bool, String, List, [], ◌∷◌, ◌++◌, ◌==◌, not, if◌then◌else◌}
use webhook_listener.Js.Value.{
  Value, undefined, null, str, obj, Fields, end, field, prop, truthy, is_text, to_text, ◌or◌, ◌⧺◌,
}
use webhook_listener.Js.Text.{strip_slashes, trim}
use webhook_listener.Js.Object.{set_own, spread_fields, fields}
use webhook_listener.Js.Engine.{Engine}
use webhook_listener.Async.{Result, ok, err}

abbrev pub default_base_url : String
default_base_url = "https://app.agenthook.store"

abbrev pub default_mail_domain : String
default_mail_domain = "app.agenthook.store"

abbrev pub default_app_profile : Fields
default_app_profile = field "plan" (str "basic") (
    field "deployment_mode" (str "multitenant") (
      field "auth_mode" (str "scalekit") (
        field "public_base_url" (str default_base_url) (
          field "mail_domain" (str default_mail_domain) (
            field "docs_path" (str "/app?tab=docs")
              (field "home_docs_anchor" (str "/#docs") end))))))

-- `${url}` of a base URL that is a string; any other value has no method `replace`.
abbrev pub map_ok : Result String → (String → Value) → Result Value
map_ok (ok s) f = ok (f s)
map_ok (err e) f = err e

abbrev pub single_tenant : Value → Bool
single_tenant profile = is_text (prop "deployment_mode" profile) "single_tenant"

-- The object that `normalizeAppProfile` returns, once its base URL is `url`.
unfoldable pub normalized : Value → String → Value
normalized profile url =
    let plan = if is_text (prop "plan" profile) "enterprise" then "enterprise" else "basic" in
    let mode = if single_tenant profile then "single_tenant" else "multitenant" in
    let auth =
      prop "auth_mode" profile
      or str (if single_tenant profile then "single_tenant_admin_secret" else "scalekit") in
    let mail = prop "mail_domain" profile or str default_mail_domain in
    obj (
      set_own "mail_domain" mail (
        set_own "public_base_url" (str url) (
          set_own "auth_mode" auth (
            set_own "deployment_mode" (str mode)
              (set_own "plan" (str plan) (spread_fields default_app_profile (fields profile)))))))

module _ ⦃js : Engine⦄ where
  -- v.replace(/\/+$/, '')
  unfoldable pub replace_slashes : Value → Result String
  replace_slashes (str s) = ok (strip_slashes s)
  replace_slashes v = err js.type_error

  unfoldable pub app_base_url : Value → Result String
  unfolding replace_slashes
  app_base_url profile = replace_slashes (prop "public_base_url" profile or str default_base_url)

  unfoldable pub normalize_app_profile : Value → Result Value
  unfolding replace_slashes normalized
  normalize_app_profile profile =
      map_ok (replace_slashes (prop "public_base_url" profile or str default_base_url))
        (normalized profile)

unfoldable pub app_mail_domain : Value → Value
app_mail_domain profile = prop "mail_domain" profile or str default_mail_domain

unfoldable pub infer_type_key : Value → Value
infer_type_key listener = if truthy listener then prop "type_key" listener or str "" else str ""

abbrev pub secret_url : String → Value → String
secret_url base_url alias = base_url ⧺ "/" ⧺ to_text alias ⧺ ".[secret]"

abbrev pub secret_inbox : Value → Value → String
secret_inbox alias mail_domain = to_text alias ⧺ ".[secret]@" ⧺ to_text mail_domain

unfoldable pub listener_ingress_template : Value → Value → String → Value
listener_ingress_template listener alias base_url =
    if truthy listener
    then prop "webhook_url_template" listener or str (secret_url base_url alias)
    else str (secret_url base_url alias)

unfoldable pub listener_webhook_id_template : Value → Value → Value → Value
listener_webhook_id_template listener alias mail_domain =
    if truthy listener
    then prop "webhook_id_template" listener or str (secret_inbox alias mail_domain)
    else str (secret_inbox alias mail_domain)
