-- ===== src/Tabs/Tokens/Laws.antt =====
-- Creating and revoking API tokens.
use webhook_listener.Prelude.{◌≡◌, true, false, List, [], ◌∷◌, ◌++◌, arith}
use webhook_listener.Js.Value.{Value, str, prop, to_text, ◌or◌, ◌⧺◌}
use webhook_listener.Js.Engine.{Engine}
use webhook_listener.Async.{exec, World, Turn, finished, Result, ok, err, ◌>>=◌, catch, finally}
use webhook_listener.Async.Steps.{OnResult, case_result, OnTest, case_test, Settled}
use webhook_listener.Api.{api_request, no_options, with_method, rows, reply_result, fetch_request}
use webhook_listener.Tabs.Tokens.{State, create_token, revoke_token}

-- The list after a reply: that of the reply, or the one before if the request failed.
abbrev pub listed : Result Value → List Value → List Value
listed (ok v) old = rows v
listed (err e) old = old

module _ ⦃js : Engine⦄ where
  -- Creating a token ends after two waits, whatever happens. A token that the server made is shown,
  -- also if the list cannot be fetched afterwards; a refusal is shown as the error, and shows no
  -- other token than the state had.
  pub create_token-settles :
      (t₁ t₂ : Turn State) (ts : List (Turn State)) (w : World State)
      → Settled (λ w'. w'.ui.token_busy ≡ false) (exec create_token (t₁ ∷ t₂ ∷ ts) w)
        × OnResult
            (reply_result t₁.reply)
            (λ v.
              Settled
                (λ w'.
                  w'.ui
                  ≡ record (t₂.meanwhile
                      (record (t₁.meanwhile (record w.ui { token_busy = true; error = "" })) {
                        api_token = prop "token" v or str "";
                        loading_tokens = true;
                      })) {
                        api_tokens_list =
                            listed
                              (reply_result t₂.reply)
                              (t₂.meanwhile
                                (record (t₁.meanwhile
                                  (record w.ui { token_busy = true; error = "" })) {
                                    api_token = prop "token" v or str "";
                                    loading_tokens = true;
                                  })).api_tokens_list;
                        loading_tokens = false;
                        token_busy = false;
                      })
                (exec create_token (t₁ ∷ t₂ ∷ ts) w))
            (λ e.
              Settled
                (λ w'.
                  w'.ui ≡ record (t₁.meanwhile (record w.ui { token_busy = true; error = "" })) {
                    error = e;
                    token_busy = false;
                  })
                (exec create_token (t₁ ∷ t₂ ∷ ts) w))
  unfolding create_token exec ◌>>=◌ catch finally api_request
  create_token-settles t₁ t₂ ts w = (
    ground arith,
    case_result (reply_result t₁.reply) _ _ (λ v h. ground arith) (λ e h. ground arith),
  )

  -- Revoking asks first. A refusal by the user sends nothing; otherwise the one token is deleted,
  -- and the list is fetched again only if the server agreed.
  pub revoke_token-requests :
      (id : Value) (t₀ t₁ t₂ : Turn State) (ts : List (Turn State)) (w : World State)
      → OnTest t₀.answer
          (OnResult
            (reply_result t₁.reply)
            (λ _.
              Settled
                (λ w'.
                  w'.sent
                  ≡ (w.sent
                      ++ fetch_request ("/v1/auth/tokens/" ⧺ to_text id) (with_method "DELETE")
                        ∷ [])
                    ++ fetch_request "/v1/auth/tokens" no_options ∷ [])
                (exec (revoke_token id) (t₀ ∷ t₁ ∷ t₂ ∷ ts) w))
            (λ e.
              exec (revoke_token id) (t₀ ∷ t₁ ∷ ts) w
              ≡ finished (ok tt) ts (record {
                ui = record (t₁.meanwhile w.ui) { error = e };
                sent =
                    w.sent
                    ++ fetch_request ("/v1/auth/tokens/" ⧺ to_text id) (with_method "DELETE") ∷ [];
              })))
          (exec (revoke_token id) (t₀ ∷ ts) w ≡ finished (ok tt) ts w)
  unfolding revoke_token exec ◌>>=◌ catch finally api_request
  revoke_token-requests id t₀ t₁ t₂ ts w =
      case_test t₀.answer _ _
        (λ h. case_result (reply_result t₁.reply) _ _ (λ v k. ground arith) (λ e k. ground arith))
        (λ h. ground arith)
