-- ===== src/Auth/Invariant.antt =====
-- When the session holds a user, and what the first load and a login come to.
use webhook_listener.Js.Value.{
  end, str, field, obj, prop, is_text, Value, null, undefined, truthy, ◌or◌, ◌⧺◌,
}
use webhook_listener.Async.Steps.{case_result, OnResult, OnTest, case_test, Settled}
use webhook_listener.Auth.Session.{
  with_defaults, login_data, State, get_request, parse_json, fetch_user, init, asks_credential,
  login, login_request,
}
use webhook_listener.Prelude.{
  Bool, ◌≡◌, true, false, String, List, [], ◌∷◌, ◌++◌, some, arith, if◌then◌else◌,
}
use webhook_listener.Async.{
  Request, exec, World, Turn, finished, Result, ok, err, Reply, failed, responded, is_ok, ◌>>=◌,
  catch, finally,
}
use webhook_listener.Js.Decimal.{show}
use webhook_listener.Js.Engine.{Engine}

-- A session that is signed out holds no user.
abbrev pub IsConsistent : State → Type 0
IsConsistent s = s.is_authenticated ≡ false → s.user ≡ null

module _ ⦃js : Engine⦄ where
  -- The value that a reply to /api/me gives for the user, if any.
  abbrev pub user_in : Reply → Result Value
  user_in (failed message) = err message
  user_in (responded status text) = if is_ok status then parse_json text else err ""

  abbrev pub signed : Result Value → State → State
  signed (ok user) s = record s { user = user; is_authenticated = true; loading = false }
  signed (err e) s = record s { user = null; is_authenticated = false; loading = false }

  -- One wait after it starts, with one request, the check of the session is over. The session is
  -- signed in exactly if the reply is a success whose text is JSON, which is then the user, whatever
  -- it is; any other reply, a failed connection included, signs it out.
  pub fetch_user-settles :
      (t : Turn State) (ts : List (Turn State)) (w : World State)
      → Settled
          (λ w'.
            (w'.ui ≡ signed (user_in t.reply) (t.meanwhile w.ui))
            × IsConsistent w'.ui
            × (w'.sent ≡ w.sent ++ get_request "/api/me" ∷ []))
          (exec fetch_user (t ∷ ts) w)
  unfolding fetch_user exec ◌>>=◌ catch finally
  fetch_user-settles t ts w = ground arith

  -- If the connection fails at the profile, and the effect is not cancelled, the first load is over
  -- with that failure: the user is never asked for, so of the session only the mark of loading
  -- changes, and the error that the query parameter gives, if any.
  pub init-needs_profile :
      (auth_error : Value) (t₁ t₂ : Turn State) (ts : List (Turn State)) (w : World State)
      (message : String)
      → t₁.reply ≡ failed message
      → t₂.answer ≡ false
      → exec (init auth_error) (t₁ ∷ t₂ ∷ ts) w
        ≡ finished (err message) ts (record {
          ui =
              record (t₁.meanwhile
                (if truthy auth_error then record w.ui { error = auth_error } else w.ui)) {
                  loading = false;
                };
          sent = w.sent ++ get_request "/api/app-profile" ∷ [];
        })
  unfolding init exec ◌>>=◌ catch finally
  init-needs_profile auth_error t₁ t₂ ts w message h k = ground arith

  -- The request that a login with a credential sends: the field that the mode asks for carries it.
  abbrev pub credential_field : Value → String
  credential_field mode =
      if is_text mode "single_tenant_claim"
      then "claim_code"
      else if is_text mode "single_tenant_admin_secret"
      then "admin_secret"
      else "setup_token"

  abbrev pub credential_request : Value → String → Request
  credential_request mode credential = record {
    path =
        if is_text mode "single_tenant_claim"
        then "/auth/single-tenant/claim"
        else "/auth/single-tenant/login";
    method = "POST";
    headers = ("Accept", "application/json") ∷ ("Content-Type", "application/json") ∷ [];
    credentials = "include";
    body = some (js.stringify (obj (field (credential_field mode) (str credential) end)));
  }

  field-body :
      (mode : Value) (credential : String)
      → login_request mode credential ≡ credential_request mode credential
  field-body mode credential = ground arith

  -- What can be read of the reply to a login, and whether it accepts it.
  abbrev pub readable : Reply → Result Value
  readable (failed message) = err message
  readable (responded status text) = login_data text

  abbrev pub accepts : Reply → Bool
  accepts (failed message) = false
  accepts (responded status text) = is_ok status

  -- The error that a refusal sets: what the answer says, else the text, else the status.
  abbrev pub refusal : Reply → Value → Value
  refusal (failed message) answer = null
  refusal (responded status text) answer =
      prop "error" answer or str text or str ("Login failed with status " ⧺ show status)

  abbrev pub with_profile : Value → State → State
  with_profile answer s =
      if truthy (prop "app_profile" answer)
      then record s { app_profile = with_defaults (prop "app_profile" answer) }
      else s

  -- Where the profile asks for no credential a login sends nothing and leaves for the identity
  -- provider. Where it does, the first request carries the credential in the field of the mode. A
  -- reply that cannot be read leaves the state as the wait left it, and one that refuses sets the
  -- error that it gives and nothing else, both with no further request. One that accepts puts the profile that it carries in
  -- place and has the session checked, by a second request, with the reply to which it ends.
  pub login-branches :
      (mode : Value) (credential : String) (t₁ t₂ : Turn State) (ts : List (Turn State))
      (w : World State)
      → let s = t₁.meanwhile (record w.ui { error = null }) in
        let sent = w.sent ++ credential_request mode credential ∷ [] in
        OnTest
          (asks_credential mode)
          (OnResult
            (readable t₁.reply)
            (λ answer.
              OnTest
                (accepts t₁.reply)
                (Settled
                  (λ w'.
                    (w'.ui ≡ signed (user_in t₂.reply) (t₂.meanwhile (with_profile answer s)))
                    × (w'.sent ≡ sent ++ get_request "/api/me" ∷ []))
                  (exec (login mode credential) (t₁ ∷ t₂ ∷ ts) w))
                (Settled
                  (λ w'. (w'.ui ≡ record s { error = refusal t₁.reply answer }) × (w'.sent ≡ sent))
                  (exec (login mode credential) (t₁ ∷ ts) w)))
            (λ e.
              exec (login mode credential) (t₁ ∷ ts) w
              ≡ finished (err e) ts (record { ui = s; sent = sent })))
          (exec (login mode credential) (t₁ ∷ ts) w
            ≡ finished (ok undefined) (t₁ ∷ ts) (record {
              ui = record w.ui { location = some "/auth/scalekit/login" };
              sent = w.sent;
            }))
  unfolding login exec ◌>>=◌ catch finally
  login-branches mode credential t₁ t₂ ts w =
      case_test (asks_credential mode) _ _
        (λ h.
          case_result (readable t₁.reply) _ _
            (λ answer k.
              case_test (accepts t₁.reply) _ _ (λ a. ground (arith, field-body mode credential))
                (λ a. ground (arith, field-body mode credential)))
            (λ e k. ground (arith, field-body mode credential)))
        (λ h. ground arith)
