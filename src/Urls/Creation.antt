-- ===== src/Urls/Creation.antt =====
-- Creating a listener.
use webhook_listener.Urls.Identities.{fetch_webhook_identities, set_error}
use webhook_listener.Async.{Request, Act, exec, World, Turn, finished, ok, ◌>>=◌, catch, finally}
use webhook_listener.Prelude.{◌≡◌, true, false, String, List, [], ◌∷◌, ◌++◌, arith}
use webhook_listener.Js.Value.{Value}
use webhook_listener.Js.Dict.{put}
use webhook_listener.Js.Engine.{Engine}
use webhook_listener.Async.Laws.{exec-finally}
use webhook_listener.Async.Steps.{Settled, set_state}
use webhook_listener.Api.{api_request, with_body, reply_result, fetch_request}
use webhook_listener.Urls.State.{State, key_of}
use webhook_listener.Urls.Refresh.{exec-refresh_then_fetch, with_identities}
use webhook_listener.Urls.Listeners.{create_listener, listener_body}

module _ ⦃js : Engine⦄ where
  -- The request that creates the listener of a form.
  abbrev pub create_request : State → Request
  create_request captured =
      fetch_request "/v1/listeners" (with_body "POST" (js.stringify (listener_body captured)))

  abbrev submitted : State → State
  submitted s = record s { submitting = true; error = "" }

  -- The world when the console is refreshed after a creation: the new secret is kept under the new
  -- listener's key, and the form is empty.
  abbrev pub created_world : State → Value → Turn State → World State → World State
  created_world captured created t w =
      let s = t.meanwhile (submitted w.ui) in
      record {
        ui = record s {
          secret_map = put (key_of created) created s.secret_map;
          listener_id = "";
          listener_secret_value = "";
          listener_secret_mode = "auto";
        };
        sent = w.sent ++ create_request captured ∷ [];
      }

  -- A listener that the server creates has its secret kept and the form emptied before the console
  -- is refreshed; if the refresh ends normally the identities are fetched, and the form can be
  -- submitted again.
  pub create_listener-settles :
      (refresh : Act State Unit) (captured : State) (t₁ t₂ : Turn State)
      (ts ts₂ : List (Turn State)) (w w₂ : World State) (created : Value)
      → reply_result t₁.reply ≡ ok created
      → exec refresh ts (created_world captured created t₁ w) ≡ finished (ok tt) (t₂ ∷ ts₂) w₂
      → Settled
          (λ w'.
            (w'.ui ≡ record (with_identities t₂ w₂).ui { submitting = false })
            × (w'.sent ≡ (with_identities t₂ w₂).sent))
          (exec (create_listener refresh captured) (t₁ ∷ ts) w)
  unfolding create_listener exec ◌>>=◌ catch finally api_request
  create_listener-settles refresh captured t₁ t₂ ts ts₂ w w₂ created h r = ground (
    arith,
    exec-finally
        (catch (refresh >>= λ _. fetch_webhook_identities)
          (λ (e : String). set_state (set_error e)))
        (λ (s : State). record s { submitting = false }) ts (created_world captured created t₁ w),
    exec-refresh_then_fetch refresh (λ (e : String). set_state (set_error e)) t₂ ts ts₂
        (created_world captured created t₁ w) w₂ r,
  )
