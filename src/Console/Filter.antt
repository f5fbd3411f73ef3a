-- ===== src/Console/Filter.antt =====
-- Filtering the storyboard by a tag.
use webhook_listener.Prelude.{
  ◌≡◌, refl, false, String, ◌==◌, eq_refl, List, ◌∷◌, arith, if◌then◌else◌,
}
use webhook_listener.Js.Value.{Value, null, str, strict_eq}
use webhook_listener.Js.Engine.{Engine}
use webhook_listener.Async.{exec, World, Turn, ok, ◌>>=◌, catch, finally, settle_both}
use webhook_listener.Async.Steps.{Settled}
use webhook_listener.Api.{api_request, reply_result, rows}
use webhook_listener.Console.Storyboard.{State, handle_tag_click, fetch_events}

-- A click on a tag filters by it and a second click on it clears the filter; a click on another tag
-- moves the filter there.
pub handle_tag_click-toggles :
    (tag : String) (s : State)
    → ((handle_tag_click (str tag) (record s { active_tag = null })).active_tag ≡ str tag)
      × ((handle_tag_click (str tag) (record s { active_tag = str tag })).active_tag ≡ null)
      × ((other : String)
          → (handle_tag_click (str tag) (record s { active_tag = str other })).active_tag
            ≡ (if other == tag then null else str tag))
unfolding handle_tag_click strict_eq
handle_tag_click-toggles tag s = (refl, rw eq_refl, λ other. refl)

module _ ⦃js : Engine⦄ where
  -- Two loads of the events that run side by side and are both answered with a success end with the
  -- events of the reply that comes last, whichever of the tags was chosen last: `order.answer` says
  -- which load the first reply is for.
  pub fetch_events-last_reply :
      (a b u v : Value) (order t₁ t₂ : Turn State) (ts : List (Turn State)) (w : World State)
      → reply_result t₁.reply ≡ ok u
      → reply_result t₂.reply ≡ ok v
      → Settled
          (λ w'. (w'.ui.events ≡ rows v) × (w'.ui.fetching ≡ false))
          (exec (settle_both (fetch_events a) (fetch_events b)) (order ∷ t₁ ∷ t₂ ∷ ts) w)
  unfolding fetch_events exec ◌>>=◌ catch finally settle_both api_request
  fetch_events-last_reply a b u v order t₁ t₂ ts w h k = ground arith
