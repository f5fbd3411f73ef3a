-- ===== src/Urls/Shown.antt =====
-- Which address the tab shows for a listener.
use mathlib.Core.Path.{subst, sym}
use webhook_listener.Prelude.{◌≡◌, arith, ◌∙◌, Bool, true, false, String, some, List, ◌∷◌}
use webhook_listener.Js.Value.{Value, undefined, prop, truthy}
use webhook_listener.Js.Dict.{Dict, get, get_or}
use webhook_listener.Js.Engine.{Engine}
use webhook_listener.Async.{Act, Turn, World, exec, finished, Result, ok, err}
use webhook_listener.Async.Steps.{Settled, Settled-map, OnResult, OnTest}
use webhook_listener.Api.{reply_result}
use webhook_listener.Urls.State.{State, key_of, minted_url}
use webhook_listener.Urls.Listeners.{delete_listener}
use webhook_listener.Urls.Deletion.{deleted, delete_listener-settles}

kept_secret :
    (k : String) (created : Value) (m : Dict Value)
    → get k m ≡ some created
    → get_or k undefined m ≡ created
unfolding get_or
kept_secret k created m h = ground (arith, h)

minted_url-kept :
    (listener alias created : Value) (base_url : String) (s : State)
    → get (key_of listener) s.secret_map ≡ some created
    → truthy (prop "webhook_url" created) ≡ true
    → minted_url listener alias base_url s ≡ prop "webhook_url" created
unfolding minted_url
minted_url-kept listener alias created base_url s h t =
    rw (kept_secret (key_of listener) created s.secret_map h, t)

module _ ⦃js : Engine⦄ where
  confirmed_and_accepted :
      {A : Type 0} (b : Bool) (r : Result A) (a : A) (P R : Type 0) (Q : String → Type 0)
      → b ≡ true
      → r ≡ ok a
      → OnTest b (OnResult r (λ x. P) Q) R
      → P
  confirmed_and_accepted true (ok x) a P R Q h k p = p
  confirmed_and_accepted true (err e) a P R Q h k p = cc
  confirmed_and_accepted false r a P R Q h k p = cc

  -- A listener with a secret that was made in this session and has a URL is deleted: the deletion is
  -- confirmed and accepted, the refresh ends normally, and neither the refresh nor what happens
  -- during the waits touches the secrets of the session. Then the tab still shows the URL of the
  -- deleted secret for a listener with that key.
  pub minted_url-delete_listener :
      (refresh : Act State Unit) (listener alias created reply : Value) (base_url : String)
      (t₀ t₁ t₂ : Turn State) (ts ts₂ : List (Turn State)) (w w₂ : World State)
      → t₀.answer ≡ true
      → reply_result t₁.reply ≡ ok reply
      → exec refresh ts (deleted listener t₁ w) ≡ finished (ok tt) (t₂ ∷ ts₂) w₂
      → (t₁.meanwhile w.ui).secret_map ≡ w.ui.secret_map
      → w₂.ui.secret_map ≡ (deleted listener t₁ w).ui.secret_map
      → (t₂.meanwhile (record w₂.ui { loading_identities = true })).secret_map ≡ w₂.ui.secret_map
      → get (key_of listener) w.ui.secret_map ≡ some created
      → truthy (prop "webhook_url" created) ≡ true
      → Settled
          (λ w'. minted_url listener alias base_url w'.ui ≡ prop "webhook_url" created)
          (exec (delete_listener refresh listener) (t₀ ∷ t₁ ∷ ts) w)
  minted_url-delete_listener refresh listener alias created reply base_url t₀ t₁ t₂ ts ts₂ w w₂
        agreed accepted refreshed kept₁ kept kept₂ h t =
      Settled-map _ _ (exec (delete_listener refresh listener) (t₀ ∷ t₁ ∷ ts) w)
        (λ w' e.
          minted_url-kept listener alias created base_url w'.ui
            (subst (λ m. get (key_of listener) m ≡ some created)
              (sym (e.0 ∙ (kept₂ ∙ (kept ∙ kept₁)))) h)
            t)
        (confirmed_and_accepted t₀.answer (reply_result t₁.reply) reply _ _ _ agreed accepted
          (delete_listener-settles refresh listener t₀ t₁ t₂ ts ts₂ w w₂ refreshed))
