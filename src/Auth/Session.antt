-- ===== src/Auth/Session.antt =====
-- The provider of the session: the profile, the user, the first load and the two ways to log in.
use webhook_listener.Prelude.{
  Bool, true, false, not, ◌||◌, String, ◌==◌, [], ◌∷◌, Option, none, some, if◌then◌else◌,
}
use webhook_listener.Js.Value.{
  Value, null, undefined, str, obj, end, field, prop, truthy, is_text, to_text, ◌or◌, ◌⧺◌,
}
use webhook_listener.Js.Decimal.{show}
use webhook_listener.Js.Dict.{Dict}
use webhook_listener.Js.Object.{spread_fields, fields}
use webhook_listener.Js.Engine.{Engine}
use webhook_listener.Profile.{default_app_profile}
use webhook_listener.Async.{
  Act, pure, throw, send, await, choose, ◌>>=◌, ◌>>◌, catch, finally, Request, Reply, failed,
  responded, is_ok, Result, ok, err,
}
use webhook_listener.Async.Steps.{set_state, skip, from_result}

-- `location` is the address that the page was sent to, if any.
pub record State : Type 0 where
  pub user : Value
  pub loading : Bool
  pub error : Value
  pub is_authenticated : Bool
  pub app_profile : Value
  pub location : Option String

-- The state that `useState` starts from.
abbrev pub initial : State
initial = record {
  user = null;
  loading = true;
  error = null;
  is_authenticated = false;
  app_profile = obj default_app_profile;
  location = none;
}

-- { ...DEFAULT_APP_PROFILE, ...data }
abbrev pub with_defaults : Value → Value
with_defaults profile = obj (spread_fields default_app_profile (fields profile))

abbrev pub accept_json : Dict String
accept_json = ("Accept", "application/json") ∷ []

abbrev pub get_request : String → Request
get_request path = record {
  path = path;
  method = "GET";
  headers = accept_json;
  credentials = "include";
  body = none;
}

-- await fetch(request), with the text of the response
abbrev pub fetch : Request → Act State Reply
fetch request = send request (await pure)

abbrev pub no_user : State → State
no_user s = record s { user = null; is_authenticated = false }

-- The modes of authentication that ask for a credential.
unfoldable pub asks_credential : Value → Bool
asks_credential mode =
    is_text mode "single_tenant_admin_secret"
    || is_text mode "single_tenant_claim"
    || is_text mode "single_tenant_setup_token"

abbrev pub credential_body : Value → String → Value
credential_body mode credential =
    if is_text mode "single_tenant_claim"
    then obj (field "claim_code" (str credential) end)
    else if is_text mode "single_tenant_admin_secret"
    then obj (field "admin_secret" (str credential) end)
    else obj (field "setup_token" (str credential) end)

module _ ⦃js : Engine⦄ where
  -- JSON.parse(text), which throws on a text that is no JSON
  unfoldable pub parse_json : String → Result Value
  parse_json text = elim (js.parse text) [ none ↦ err js.syntax_error | some v ↦ ok v ]

  -- The profile that a reply carries, or the default one where the reply is no success.
  unfoldable pub take_profile : Reply → Act State Value
  unfolding parse_json
  take_profile (failed message) = throw message
  take_profile (responded status text) =
      if not (is_ok status) then pure (obj default_app_profile) else do
        profile ← from_result (parse_json text)
        set_state (λ s. record s { app_profile = with_defaults profile })
        pure (with_defaults profile)

  unfoldable pub fetch_app_profile : Act State Value
  unfolding take_profile
  fetch_app_profile = do reply ← fetch (get_request "/api/app-profile"); take_profile reply

  unfoldable pub take_user : Reply → Act State Value
  unfolding parse_json
  take_user (failed message) = throw message
  take_user (responded status text) =
      if is_ok status
      then (do
        user ← from_result (parse_json text)
        set_state (λ s. record s { user = user })
        set_state (λ s. record s { is_authenticated = true })
        pure user)
      else (do set_state no_user; pure null)

  unfoldable pub fetch_user : Act State Value
  unfolding take_user
  fetch_user =
      finally
        (catch (do reply ← fetch (get_request "/api/me"); take_user reply)
          (λ e. do set_state no_user; pure null))
        (λ s. record s { loading = false })

  -- finally { if (!cancelled) setLoading(false) }, where the world says whether the provider has been
  -- unmounted
  abbrev loaded_unless_cancelled : {A : Type 0} → Act State A → Act State A
  loaded_unless_cancelled rest =
      choose λ cancelled.
        if cancelled then rest else set_state (λ s. record s { loading = false }) >> rest

  -- The effect of the first render. `auth_error` is the query parameter.
  unfoldable pub init : Value → Act State Unit
  unfolding fetch_app_profile fetch_user
  init auth_error = do
    (if truthy auth_error then set_state (λ s. record s { error = auth_error }) else skip)
    catch
        (do
          fetch_app_profile
          choose λ cancelled. if cancelled then skip else (do fetch_user; skip))
        (λ e. loaded_unless_cancelled (throw e))
    loaded_unless_cancelled skip

  abbrev pub login_request : Value → String → Request
  login_request mode credential = record {
    path =
        if is_text mode "single_tenant_claim"
        then "/auth/single-tenant/claim"
        else "/auth/single-tenant/login";
    method = "POST";
    headers = ("Accept", "application/json") ∷ ("Content-Type", "application/json") ∷ [];
    credentials = "include";
    body = some (js.stringify (credential_body mode credential));
  }

  -- text ? JSON.parse(text) : {}
  abbrev pub login_data : String → Result Value
  login_data text = if text == "" then ok (obj end) else parse_json text

  unfoldable pub take_login : Reply → Act State Value
  unfolding parse_json fetch_user
  take_login (failed message) = throw message
  take_login (responded status text) = do
    answer ← from_result (login_data text)
    let message =
        to_text (prop "error" answer or str text or str ("Login failed with status " ⧺ show status))
    (if is_ok status then skip else (do
      set_state (λ s. record s {
        error = prop "error" answer or str text or str ("Login failed with status " ⧺ show status);
      })
      throw message))
    (if truthy (prop "app_profile" answer)
        then set_state (λ s. record s { app_profile = with_defaults (prop "app_profile" answer) })
        else skip)
    fetch_user
    pure answer

  -- `mode` is the mode of the profile that the closure captured.
  unfoldable pub login : Value → String → Act State Value
  unfolding take_login asks_credential
  login mode credential =
      if asks_credential mode
      then (do
        set_state (λ s. record s { error = null })
        reply ← fetch (login_request mode credential)
        take_login reply)
      else (do set_state (λ s. record s { location = some "/auth/scalekit/login" }); pure undefined)

  unfoldable pub logout : Act State Unit
  logout = set_state (λ s. record s { location = some "/auth/logout" })
