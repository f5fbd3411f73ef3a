-- ===== src/Tests/Tokens.antt =====
-- Runs of the tab for tokens.
use webhook_listener.Tabs.Tokens.Laws.{create_token-settles, listed}
use webhook_listener.Tests.{sample_engine, row_text, answered, world}
use webhook_listener.Prelude.{◌≡◌, true, false, [], ◌∷◌}
use webhook_listener.Js.Value.{str, prop, ◌or◌}
use webhook_listener.Async.{exec}
use webhook_listener.Async.Steps.{OnResult, Settled}
use webhook_listener.Api.{reply_result}
use webhook_listener.Tabs.Tokens.{State, create_token, initial}

create_token-settles_example :
    Settled
      (λ w'. w'.ui.token_busy ≡ false)
      (exec create_token
        ((answered {S = State} 200 row_text) ∷ (answered {S = State} 200 "[]") ∷ [])
        (world initial))
    × OnResult
        (reply_result (answered {S = State} 200 row_text).reply)
        (λ v.
          Settled
            (λ w'.
              w'.ui
              ≡ record ((answered {S = State} 200 "[]").meanwhile
                  (record ((answered {S = State} 200 row_text).meanwhile
                    (record (world initial).ui { token_busy = true; error = "" })) {
                      api_token = prop "token" v or str "";
                      loading_tokens = true;
                    })) {
                      api_tokens_list =
                          listed
                            (reply_result (answered {S = State} 200 "[]").reply)
                            ((answered {S = State} 200 "[]").meanwhile
                              (record ((answered {S = State} 200 row_text).meanwhile
                                (record (world initial).ui { token_busy = true; error = "" })) {
                                  api_token = prop "token" v or str "";
                                  loading_tokens = true;
                                })).api_tokens_list;
                      loading_tokens = false;
                      token_busy = false;
                    })
            (exec create_token
              ((answered {S = State} 200 row_text) ∷ (answered {S = State} 200 "[]") ∷ [])
              (world initial)))
        (λ e.
          Settled
            (λ w'.
              w'.ui
              ≡ record ((answered {S = State} 200 row_text).meanwhile
                  (record (world initial).ui { token_busy = true; error = "" })) {
                    error = e;
                    token_busy = false;
                  })
            (exec create_token
              ((answered {S = State} 200 row_text) ∷ (answered {S = State} 200 "[]") ∷ [])
              (world initial)))
create_token-settles_example =
    create_token-settles (answered 200 row_text) (answered 200 "[]") [] (world initial)
