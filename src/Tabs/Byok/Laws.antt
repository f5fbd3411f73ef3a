-- ===== src/Tabs/Byok/Laws.antt =====
-- Saving a provider's credentials.
use webhook_listener.Prelude.{◌≡◌, true, false, List, ◌∷◌, arith}
use webhook_listener.Js.Engine.{Engine}
use webhook_listener.Async.{exec, World, Turn, ◌>>=◌, catch, finally}
use webhook_listener.Async.Steps.{OnResult, case_result, Settled}
use webhook_listener.Api.{api_request, reply_result}
use webhook_listener.Tabs.Byok.{State, save}

-- The state when the save's request is sent.
abbrev pub started : State → State
started s = record s { saving = true; notice = "" }

-- The state when the list is fetched after a save: the secrets typed in are gone.
abbrev pub cleared : State → State
cleared s = record s { api_key = ""; base_url = ""; model = ""; loading_providers = true }

module _ ⦃js : Engine⦄ where
  -- A save ends after two waits at most. If the server refuses, every field that was typed in stays
  -- and the notice is the error; if it accepts, the key has left the state before the list is
  -- fetched, and the save is reported also where that fetch fails.
  pub save-settles :
      (captured : State) (t₁ t₂ : Turn State) (ts : List (Turn State)) (w : World State)
      → Settled (λ w'. w'.ui.saving ≡ false) (exec (save captured) (t₁ ∷ t₂ ∷ ts) w)
        × OnResult
            (reply_result t₁.reply)
            (λ _.
              Settled
                (λ w'.
                  (w'.ui.notice ≡ "Provider config saved.")
                  × (w'.ui.api_key
                      ≡ (t₂.meanwhile (cleared (t₁.meanwhile (started w.ui)))).api_key))
                (exec (save captured) (t₁ ∷ t₂ ∷ ts) w))
            (λ e.
              Settled
                (λ w'. w'.ui ≡ record (t₁.meanwhile (started w.ui)) { notice = e; saving = false })
                (exec (save captured) (t₁ ∷ t₂ ∷ ts) w))
  unfolding save exec ◌>>=◌ catch finally api_request
  save-settles captured t₁ t₂ ts w = (
    ground arith,
    case_result (reply_result t₁.reply) _ _ (λ v h. ground arith) (λ e h. ground arith),
  )
