-- ===== src/Urls/Marks.antt =====
-- web/src/App.jsx, `UrlsTab`: the mark of the identity whose status is being changed.
use webhook_listener.Api.{fetch_request, api_request, with_method}
use webhook_listener.Async.{Act, exec, Request, World, waiting, ◌>>=◌, catch, finally}
use webhook_listener.Prelude.{◌≡◌, refl, true, false, [], ◌∷◌, ◌++◌, inl, inr}
use webhook_listener.Js.Value.{Value, prop, is_text, strict_eq, to_text, ◌⧺◌}
use webhook_listener.Js.Engine.{Engine}
use webhook_listener.Async.Stage.{Stage, begin, after, residue}
use webhook_listener.View.{Offers, button}
use webhook_listener.View.Safe.{shown_if-Offers}
use webhook_listener.Urls.State.{State}
use webhook_listener.Urls.Identities.{change_identity_status}
use webhook_listener.Urls.Panel.Cards.{Page, identity_row, press_status}

module _ ⦃js : Engine⦄ where
  -- The stage after a press of the button that blocks the identity.
  abbrev pub pressed : Value → Stage State → Stage State
  pressed identity t = begin (change_identity_status (prop "id" identity) "blocked") t.ui t.running

  busy-pressed :
      (identity : Value) (t : Stage State)
      → (pressed identity t).ui.identity_busy_id ≡ prop "id" identity
  unfolding change_identity_status after ◌>>=◌ catch finally api_request
  busy-pressed identity t = refl

  active-Offers :
      (page : Page) (busy_id identity : Value)
      → is_text (prop "status" identity) "active" ≡ true
      → strict_eq busy_id (prop "id" identity) ≡ false
      → Offers (identity_row page busy_id identity) (press_status (prop "id" identity) "blocked")
  unfolding identity_row Offers
  active-Offers page busy_id identity a n =
      inr (inr (inr (inr (inr (inl (shown_if-Offers _ (button _ _ _) _ a (n, refl)))))))

  -- A handler that has sent its request and waits for the reply.
  abbrev pub AwaitsReply : Request → Act State Unit → Act State Unit → Type 0
  AwaitsReply request a waiting_for =
      (residue a ≡ waiting_for ∷ [])
      × ((w : World State)
          → (s : State) × (exec a [] w
              ≡ waiting (record { ui = s; sent = w.sent ++ request ∷ [] })))

  abbrev pub block_request : Value → Request
  block_request identity =
      fetch_request ("/api/webhook-identities/" ⧺ to_text (prop "id" identity) ⧺ "/block")
        (with_method "POST")

  change_identity_status-AwaitsReply :
      (identity : Value)
      → (a : Act State Unit) × AwaitsReply
          (block_request identity)
          (change_identity_status (prop "id" identity) "blocked")
          a
  unfolding change_identity_status residue exec ◌>>=◌ catch finally api_request
  change_identity_status-AwaitsReply identity = (_, (refl, λ w. (_, refl)))

  -- While the status of an active identity is being changed, a press for another identity makes the
  -- button of the first one work again. Both presses have then sent their requests and wait for the
  -- replies.
  pub identity_row-Offers_again :
      (page : Page) (t : Stage State) (identity other : Value)
      → is_text (prop "status" identity) "active" ≡ true
      → strict_eq (prop "id" other) (prop "id" identity) ≡ false
      → Offers
          (identity_row page (pressed other (pressed identity t)).ui.identity_busy_id identity)
          (press_status (prop "id" identity) "blocked")
        × ((a : Act State Unit) × (b : Act State Unit) × AwaitsReply
              (block_request identity)
              (change_identity_status (prop "id" identity) "blocked")
              a
            × AwaitsReply
                (block_request other)
                (change_identity_status (prop "id" other) "blocked")
                b
            × ((pressed other (pressed identity t)).running ≡ b ∷ a ∷ t.running))
  identity_row-Offers_again page t identity other a n =
      let (m, waits) = change_identity_status-AwaitsReply identity in
      let (m', waits') = change_identity_status-AwaitsReply other in
      (
        active-Offers page _ identity a (rw (busy-pressed other (pressed identity t)) n),
        (m, m', waits, waits', rw (waits.0, waits'.0) refl),
      )
