-- ===== src/Tabs/Secrets/Laws.antt =====
-- How the registry of secrets loads, saves and deletes.
use webhook_listener.Prelude.{
  ◌≡◌, true, false, String, List, [], ◌∷◌, ◌++◌, arith, ◌==◌, if◌then◌else◌,
}
use webhook_listener.Js.Value.{Value, str, truthy, prop, to_text, strict_eq, ◌⧺◌}
use webhook_listener.Js.Engine.{Engine}
use webhook_listener.Async.{
  exec, World, Turn, finished, Result, ok, err, ◌>>=◌, catch, finally, Request,
}
use webhook_listener.Async.Steps.{OnResult, case_result, OnTest, case_test, Settled, trim_value}
use webhook_listener.Api.{
  api_request, no_options, with_body, with_method, rows, reply_result, fetch_request,
}
use webhook_listener.Tabs.Secrets.{
  State, SecretForm, fetch_secrets, persist_secret, delete_secret, default_secret_form, reset_form,
  secret_path, save_method, form_value,
}

-- What a reply to the list request makes of the state.
abbrev pub loaded : Result Value → State → State
loaded (ok v) s = record s { secrets = rows v; loading_secrets = false }
loaded (err e) s = record s { notice = e; loading_secrets = false }

-- The state while a save is under way.
abbrev pub saving : State → State
saving s = record s { saving_secret = true; notice = "" }

module _ ⦃js : Engine⦄ where
  -- The request that saves a form.
  abbrev pub save_request : SecretForm → Value → Request
  save_request form editing =
      fetch_request (secret_path editing)
        (with_body (save_method editing) (js.stringify (form_value form)))

  pub exec-fetch_secrets :
      (t : Turn State) (ts : List (Turn State)) (w : World State)
      → exec fetch_secrets (t ∷ ts) w
        ≡ finished (ok tt) ts (record {
          ui = loaded (reply_result t.reply) (t.meanwhile (record w.ui { loading_secrets = true }));
          sent = w.sent ++ fetch_request "/api/integration-secrets" no_options ∷ [];
        })
  unfolding fetch_secrets exec ◌>>=◌ catch finally api_request
  exec-fetch_secrets t ts w = ground arith

  -- The text of a field without its blanks is not empty.
  abbrev pub IsFilled : Value → Type 0
  IsFilled v = (text : String) × (trim_value v ≡ ok text) × ((text == "") ≡ false)

  -- Whatever is in the form, whatever the server answers and whatever other handlers do meanwhile,
  -- saving a secret ends after two waits at most, and the form is no longer marked as saving.
  pub persist_secret-settles :
      (form : SecretForm) (editing : Value) (t₁ t₂ : Turn State) (ts : List (Turn State))
      (w : World State)
      → Settled
          (λ w'. w'.ui.saving_secret ≡ false)
          (exec (persist_secret form editing) (t₁ ∷ t₂ ∷ ts) w)
  unfolding persist_secret exec ◌>>=◌ catch finally api_request
  persist_secret-settles form editing t₁ t₂ ts w = ground arith

  -- Without a key nothing is sent, and the form stays as it is.
  pub persist_secret-needs_key :
      (form : SecretForm) (editing : Value) (ts : List (Turn State)) (w : World State)
      → trim_value form.secret_key ≡ ok ""
      → exec (persist_secret form editing) ts w
        ≡ finished (ok tt) ts (record {
          ui = record w.ui { saving_secret = false; notice = "secret_key is required" };
          sent = w.sent;
        })
  unfolding persist_secret exec ◌>>=◌ catch finally api_request
  persist_secret-needs_key form editing ts w h = ground arith

  -- A valid form is sent once, to the row under edit or to the collection. If the server takes it,
  -- the list is fetched and the form is reset; if not, the notice is the error and the form stays.
  pub persist_secret-saves :
      (form : SecretForm) (editing : Value) (t₁ t₂ : Turn State) (ts : List (Turn State))
      (w : World State)
      → IsFilled form.secret_key
      → (truthy editing ≡ false → IsFilled form.secret_value)
      → Settled
          (λ w'.
            OnResult
              (reply_result t₁.reply)
              (λ _.
                (w'.ui.secret_form ≡ default_secret_form)
                × (w'.ui.editing_secret_id ≡ str "")
                × (w'.sent
                    ≡ (w.sent ++ save_request form editing ∷ [])
                      ++ fetch_request "/api/integration-secrets" no_options ∷ []))
              (λ e.
                (w'.ui ≡ record (t₁.meanwhile (saving w.ui)) { notice = e; saving_secret = false })
                × (w'.sent ≡ w.sent ++ save_request form editing ∷ [])))
          (exec (persist_secret form editing) (t₁ ∷ t₂ ∷ ts) w)
  unfolding persist_secret exec ◌>>=◌ catch finally api_request
  persist_secret-saves form editing t₁ t₂ ts w k v = ground (arith, v)

  -- A deletion that the user does not confirm does nothing. One that the server takes is followed by
  -- a fetch of the list, and drops the form exactly if the form was editing that row; one that it
  -- refuses changes the notice alone.
  pub delete_secret-settles :
      (secret editing : Value) (t₀ t₁ t₂ : Turn State) (ts : List (Turn State)) (w : World State)
      → OnTest t₀.answer
          (OnResult
            (reply_result t₁.reply)
            (λ _.
              Settled
                (λ w'.
                  (w'.ui
                    ≡ record (loaded (reply_result t₂.reply) (
                        t₂.meanwhile
                          (record (if strict_eq editing (prop "id" secret)
                            then reset_form (t₁.meanwhile w.ui)
                            else t₁.meanwhile w.ui) { loading_secrets = true }))) {
                              notice = "Integration secret deleted.";
                            })
                  × (w'.sent
                      ≡ (w.sent
                          ++ fetch_request
                              ("/api/integration-secrets/" ⧺ to_text (prop "id" secret))
                              (with_method "DELETE")
                            ∷ [])
                        ++ fetch_request "/api/integration-secrets" no_options ∷ []))
                (exec (delete_secret secret editing) (t₀ ∷ t₁ ∷ t₂ ∷ ts) w))
            (λ e.
              Settled
                (λ w'. w'.ui ≡ record (t₁.meanwhile w.ui) { notice = e })
                (exec (delete_secret secret editing) (t₀ ∷ t₁ ∷ ts) w)))
          (exec (delete_secret secret editing) (t₀ ∷ ts) w ≡ finished (ok tt) ts w)
  unfolding delete_secret exec ◌>>=◌ catch finally api_request
  delete_secret-settles secret editing t₀ t₁ t₂ ts w =
      case_test t₀.answer _ _
        (λ h. case_result (reply_result t₁.reply) _ _ (λ v k. ground arith) (λ e k. ground arith))
        (λ h. ground arith)
