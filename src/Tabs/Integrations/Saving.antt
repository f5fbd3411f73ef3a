-- ===== src/Tabs/Integrations/Saving.antt =====
-- How the integrations tab saves and deletes targets.
use webhook_listener.Prelude.{◌≡◌, true, false, String, List, [], ◌∷◌, ◌++◌, arith, if◌then◌else◌}
use webhook_listener.Js.Value.{Value, str, prop, strict_eq}
use webhook_listener.Js.Engine.{Engine}
use webhook_listener.Async.{exec, World, Turn, finished, Result, ok, err, ◌>>=◌, catch, finally}
use webhook_listener.Async.Steps.{OnResult, case_result, OnTest, case_test, Settled}
use webhook_listener.Api.{api_request, no_options, with_body, rows, reply_result, fetch_request}
use webhook_listener.Tabs.Integrations.{
  State, TargetForm, reset_form, default_target_form, target_path, save_method, target_payload,
  persist_target, delete_target,
}

-- The state while a save is under way.
abbrev pub saving : State → State
saving s = record s { saving_target = true; notice = "" }

-- What a reply to the list request makes of the state.
abbrev pub loaded : Result Value → State → State
loaded (ok v) s = record s { targets = rows v; loading_targets = false }
loaded (err e) s = record s { notice = e; loading_targets = false }

module _ ⦃js : Engine⦄ where
  -- A form that does not make a payload is not sent: the notice says why, and the form stays.
  pub persist_target-refused :
      (form : TargetForm) (editing : Value) (message : String) (ts : List (Turn State))
      (w : World State)
      → target_payload form ≡ err message
      → exec (persist_target form editing) ts w
        ≡ finished
            (ok tt)
            ts
            (record { ui = record w.ui { saving_target = false; notice = message }; sent = w.sent })
  unfolding persist_target exec ◌>>=◌ catch finally api_request
  persist_target-refused form editing message ts w h = ground arith

  -- A payload is sent once, to the row under edit or to the collection. Whatever the server answers
  -- the save ends: a refusal is the notice and leaves the form; an acceptance is followed by a fetch
  -- of the list, and then the form is reset.
  pub persist_target-sends :
      (form : TargetForm) (editing payload : Value) (t₁ t₂ : Turn State) (ts : List (Turn State))
      (w : World State)
      → target_payload form ≡ ok payload
      → let save =
          fetch_request
            (target_path editing)
            (with_body (save_method editing) (js.stringify payload)) in
        OnResult
          (reply_result t₁.reply)
          (λ _.
            Settled
              (λ w'.
                (w'.ui.target_form ≡ default_target_form)
                × (w'.ui.editing_target_id ≡ str "")
                × (w'.ui.saving_target ≡ false)
                × (w'.sent
                    ≡ (w.sent ++ save ∷ [])
                      ++ fetch_request "/api/forward-targets" no_options ∷ []))
              (exec (persist_target form editing) (t₁ ∷ t₂ ∷ ts) w))
          (λ e.
            exec (persist_target form editing) (t₁ ∷ ts) w
            ≡ finished (ok tt) ts (record {
              ui = record (t₁.meanwhile (saving w.ui)) { notice = e; saving_target = false };
              sent = w.sent ++ save ∷ [];
            }))
  unfolding persist_target exec ◌>>=◌ catch finally api_request
  persist_target-sends form editing payload t₁ t₂ ts w p =
      case_result (reply_result t₁.reply) _ _ (λ v h. ground arith) (λ e h. ground arith)

  -- A deletion that the user does not confirm does nothing. One that the server refuses leaves the
  -- form; one that it takes resets the form exactly if the form was editing that row.
  pub delete_target-settles :
      (target editing : Value) (t₀ t₁ t₂ : Turn State) (ts : List (Turn State)) (w : World State)
      → OnTest t₀.answer
          (OnResult
            (reply_result t₁.reply)
            (λ _.
              Settled
                (λ w'.
                  w'.ui
                  ≡ record (loaded (reply_result t₂.reply) (
                      t₂.meanwhile
                        (record (if strict_eq editing (prop "id" target)
                          then reset_form (t₁.meanwhile w.ui)
                          else t₁.meanwhile w.ui) { loading_targets = true }))) {
                            notice = "Integration deleted.";
                          })
                (exec (delete_target target editing) (t₀ ∷ t₁ ∷ t₂ ∷ ts) w))
            (λ e.
              Settled
                (λ w'. w'.ui ≡ record (t₁.meanwhile w.ui) { notice = e })
                (exec (delete_target target editing) (t₀ ∷ t₁ ∷ ts) w)))
          (exec (delete_target target editing) (t₀ ∷ ts) w ≡ finished (ok tt) ts w)
  unfolding delete_target exec ◌>>=◌ catch finally api_request
  delete_target-settles target editing t₀ t₁ t₂ ts w =
      case_test t₀.answer _ _
        (λ h. case_result (reply_result t₁.reply) _ _ (λ v k. ground arith) (λ e k. ground arith))
        (λ h. ground arith)
