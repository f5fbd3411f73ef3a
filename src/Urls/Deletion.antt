-- ===== src/Urls/Deletion.antt =====
-- Deleting a listener.
use webhook_listener.Prelude.{◌≡◌, true, false, String, List, [], ◌∷◌, ◌++◌, arith}
use webhook_listener.Js.Value.{Value, ◌⧺◌}
use webhook_listener.Js.Dict.{remove}
use webhook_listener.Js.Engine.{Engine}
use webhook_listener.Async.{Act, exec, World, Turn, finished, ok, ◌>>=◌, catch, finally}
use webhook_listener.Async.Steps.{OnResult, case_result, OnTest, case_test, Settled, set_state}
use webhook_listener.Api.{api_request, with_method, reply_result, fetch_request, no_options}
use webhook_listener.Urls.State.{State, key_of}
use webhook_listener.Urls.Identities.{set_error}
use webhook_listener.Urls.Refresh.{exec-refresh_then_fetch}
use webhook_listener.Urls.Listeners.{delete_listener, listener_path}

module _ ⦃js : Engine⦄ where
  -- The world when the console is refreshed after a deletion: the history of the listener is gone.
  abbrev pub deleted : Value → Turn State → World State → World State
  deleted listener t w = record {
    ui = record (t.meanwhile w.ui) {
      secrets_history = remove (key_of listener) (t.meanwhile w.ui).secrets_history;
    };
    sent = w.sent ++ fetch_request (listener_path listener) (with_method "DELETE") ∷ [];
  }

  -- For a refresh that ends normally once the listener is deleted: a deletion that is not confirmed
  -- does nothing, and one that the server refuses changes nothing but the error. Otherwise the
  -- secrets that the tab listed for the listener are forgotten before the console is refreshed, and
  -- the identities are fetched after it; the secrets that were made in this session are still those
  -- that the refresh left.
  pub delete_listener-settles :
      (refresh : Act State Unit) (listener : Value) (t₀ t₁ t₂ : Turn State)
      (ts ts₂ : List (Turn State)) (w w₂ : World State)
      → exec refresh ts (deleted listener t₁ w) ≡ finished (ok tt) (t₂ ∷ ts₂) w₂
      → OnTest t₀.answer
          (OnResult
            (reply_result t₁.reply)
            (λ _.
              Settled
                (λ w'.
                  (w'.ui.secret_map
                    ≡ (t₂.meanwhile (record w₂.ui { loading_identities = true })).secret_map)
                  × (w'.ui.loading_identities ≡ false)
                  × (w'.sent ≡ w₂.sent ++ fetch_request "/api/webhook-identities" no_options ∷ []))
                (exec (delete_listener refresh listener) (t₀ ∷ t₁ ∷ ts) w))
            (λ e.
              Settled
                (λ w'.
                  w'.ui ≡ record (t₁.meanwhile w.ui) { error = "Failed to delete listener: " ⧺ e })
                (exec (delete_listener refresh listener) (t₀ ∷ t₁ ∷ ts) w)))
          (exec (delete_listener refresh listener) (t₀ ∷ ts) w ≡ finished (ok tt) ts w)
  unfolding delete_listener exec ◌>>=◌ catch finally api_request
  delete_listener-settles refresh listener t₀ t₁ t₂ ts ts₂ w w₂ r =
      case_test t₀.answer _ _
        (λ h.
          case_result (reply_result t₁.reply) _ _
            (λ v k. ground (
              arith,
              exec-refresh_then_fetch refresh
                  (λ (e : String). set_state (set_error ("Failed to delete listener: " ⧺ e))) t₂ ts
                  ts₂ (deleted listener t₁ w) w₂ r,
            ))
            (λ e k. ground arith))
        (λ h. ground arith)
