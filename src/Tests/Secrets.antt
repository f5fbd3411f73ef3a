-- ===== src/Tests/Secrets.antt =====
-- Runs of the tab for integration secrets.
use webhook_listener.Tabs.Secrets.Laws.{
  persist_secret-saves, persist_secret-settles, delete_secret-settles, loaded, saving, save_request,
  IsFilled,
}
use webhook_listener.Tests.{sample_engine, row, row_text, answered, world}
use webhook_listener.Prelude.{◌≡◌, refl, true, false, [], ◌∷◌, ◌++◌, if◌then◌else◌}
use webhook_listener.Js.Value.{str, prop, to_text, strict_eq, ◌⧺◌}
use webhook_listener.Async.{exec, finished, ok}
use webhook_listener.Async.Steps.{OnResult, OnTest, Settled, trim_value}
use webhook_listener.Api.{no_options, with_method, reply_result, fetch_request}
use webhook_listener.Tabs.Secrets.{
  State, SecretForm, persist_secret, delete_secret, default_secret_form, reset_form, initial,
}
use webhook_listener.Js.Text.{trim, drop_start, drop_end}

abbrev form : SecretForm
form = record { secret_key = str "ci"; purpose = str ""; secret_value = str "s3cret" }

IsFilled-key : IsFilled (str "ci")
unfolding trim_value trim drop_start drop_end
IsFilled-key = ("ci", refl, refl)

IsFilled-value : IsFilled (str "s3cret")
unfolding trim_value trim drop_start drop_end
IsFilled-value = ("s3cret", refl, refl)

persist_secret-saves_example :
    Settled
      (λ w'.
        OnResult
          (reply_result (answered {S = State} 200 row_text).reply)
          (λ _.
            (w'.ui.secret_form ≡ default_secret_form)
            × (w'.ui.editing_secret_id ≡ str "")
            × (w'.sent
                ≡ ((world initial).sent ++ save_request form (str "") ∷ [])
                  ++ fetch_request "/api/integration-secrets" no_options ∷ []))
          (λ e.
            (w'.ui
              ≡ record ((answered {S = State} 200 row_text).meanwhile (saving (world initial).ui)) {
                notice = e;
                saving_secret = false;
              })
            × (w'.sent ≡ (world initial).sent ++ save_request form (str "") ∷ [])))
      (exec
        (persist_secret form (str ""))
        ((answered {S = State} 200 row_text) ∷ (answered {S = State} 200 "[]") ∷ [])
        (world initial))
persist_secret-saves_example =
    persist_secret-saves form (str "") (answered 200 row_text) (answered 200 "[]") []
      (world initial) IsFilled-key (λ h. IsFilled-value)

persist_secret-settles_example :
    Settled
      (λ w'. w'.ui.saving_secret ≡ false)
      (exec
        (persist_secret form (str ""))
        ((answered {S = State} 200 row_text) ∷ (answered {S = State} 200 "[]") ∷ [])
        (world initial))
persist_secret-settles_example =
    persist_secret-settles form (str "") (answered 200 row_text) (answered 200 "[]") []
      (world initial)

delete_secret-settles_example :
    OnTest
      (answered {S = State} 200 "").answer
      (OnResult
        (reply_result (answered {S = State} 200 row_text).reply)
        (λ _.
          Settled
            (λ w'.
              (w'.ui
                ≡ record (loaded (reply_result (answered {S = State} 200 "[]").reply) (
                    (answered {S = State} 200 "[]").meanwhile
                      (record (if strict_eq (str "7") (prop "id" row)
                        then reset_form
                            ((answered {S = State} 200 row_text).meanwhile (world initial).ui)
                        else (answered {S = State} 200 row_text).meanwhile (world initial).ui) {
                          loading_secrets = true;
                        }))) { notice = "Integration secret deleted." })
              × (w'.sent
                  ≡ ((world initial).sent
                      ++ fetch_request
                          ("/api/integration-secrets/" ⧺ to_text (prop "id" row))
                          (with_method "DELETE")
                        ∷ [])
                    ++ fetch_request "/api/integration-secrets" no_options ∷ []))
            (exec
              (delete_secret row (str "7"))
              ((answered {S = State} 200 "")
                ∷ (answered {S = State} 200 row_text)
                ∷ (answered {S = State} 200 "[]")
                ∷ [])
              (world initial)))
        (λ e.
          Settled
            (λ w'.
              w'.ui ≡ record ((answered {S = State} 200 row_text).meanwhile (world initial).ui) {
                notice = e;
              })
            (exec
              (delete_secret row (str "7"))
              ((answered {S = State} 200 "") ∷ (answered {S = State} 200 row_text) ∷ [])
              (world initial))))
      (exec (delete_secret row (str "7")) ((answered {S = State} 200 "") ∷ []) (world initial)
        ≡ finished (ok tt) [] (world initial))
delete_secret-settles_example =
    delete_secret-settles row (str "7") (answered 200 "") (answered 200 row_text)
      (answered 200 "[]") [] (world initial)
