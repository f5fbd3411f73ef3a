-- ===== src/Tabs/Tokens/Flight.antt =====
-- web/src/App.jsx, `ApiTokensTab` on the page: tokens are created one at a time.
use webhook_listener.Prelude.{true, ◌≡◌, refl, Bool, false, String, arith}
use webhook_listener.Js.Value.{Value}
use webhook_listener.Js.Engine.{Engine}
use webhook_listener.Async.{◌>>=◌, catch, finally}
use webhook_listener.Async.Stage.{Stage, Reach}
use webhook_listener.Async.Flight.{Quiet, Holds, Ends, Takes}
use webhook_listener.Async.Flight.Single.{Guarded, Exclusive, Duty, Reach-Exclusive}
use webhook_listener.Api.{api_request}
use webhook_listener.View.Parts.{copy_text}
use webhook_listener.View.Safe.{Safe, Safe-Offers, safe_rules}
use webhook_listener.Tabs.Tokens.{State, fetch_tokens, create_token, revoke_token}
use webhook_listener.Tabs.Tokens.Panel.{
  Event, tokens_view, tokens_tab, on_event, press_create, press_copy, press_revoke,
}

abbrev pub busy : State → Bool
busy s = s.token_busy

module _ ⦃js : Engine⦄ where
  fetch_tokens-Quiet : Quiet busy fetch_tokens
  unfolding fetch_tokens Quiet ◌>>=◌ catch finally api_request
  fetch_tokens-Quiet = ground arith

  revoke_token-Quiet : (id : Value) → Quiet busy (revoke_token id)
  unfolding revoke_token Quiet ◌>>=◌ catch finally api_request
  revoke_token-Quiet id = ground arith

  copy_text-Quiet : (key : String) → Quiet busy (copy_text (λ k t. t) key)
  unfolding copy_text Quiet ◌>>=◌
  copy_text-Quiet key = ground arith

  create_token-Takes : Takes busy create_token
  unfolding create_token Quiet Holds Ends Takes ◌>>=◌ catch finally api_request
  create_token-Takes = ground arith

  -- Only the button that creates a token waits for the flag.
  abbrev Needs : State → Event → Type 0
  Needs s press_create = busy s ≡ false
  Needs s m = Unit

  abbrev pub creates : State → Event → Bool
  creates s press_create = true
  creates s m = false

  on_event-Duty : (s : State) (m : Event) → Needs s m → Duty busy (creates s m) s (on_event s m)
  unfolding on_event
  on_event-Duty s press_create h = (h, create_token-Takes)
  on_event-Duty s press_copy h = (copy_text-Quiet "api-token")
  on_event-Duty s (press_revoke id) h = (revoke_token-Quiet id)

  module _ (last_8 local_date : Value → String) (copied : String) where
    tokens_view-Safe : (s : State) → Safe (Needs s) (tokens_view last_8 local_date copied s)
    unfolding tokens_view
    tokens_view-Safe s = search (safe_rules, tt) depth 30

    tokens-Guarded : Guarded busy (tokens_tab last_8 local_date copied) creates
    unfolding tokens_tab
    tokens-Guarded = record {
      down = refl;
      opens = (fetch_tokens-Quiet, tt);
      clicks = λ s m o. on_event-Duty s m (Safe-Offers (tokens_view-Safe s) o);
      effects = λ s a e. elim e [ ];
    }

    -- In every state that the tab can reach, by any sequence of clicks, replies and answers:
    -- a press of the button that creates a token is offered only while its mark is down, the
    -- creation puts the mark up first, and takes it down when it neither sends nor waits any
    -- more; no other control and no effect ever touches the mark; so at most one creation is
    -- under way, the mark is up exactly while one waits, and it comes down, whatever the
    -- handlers wait for.
    pub tokens-IsSingle :
        (t : Stage State)
        → Reach (tokens_tab last_8 local_date copied) t
        → Exclusive busy (tokens_tab last_8 local_date copied) creates t
    tokens-IsSingle t r =
        Reach-Exclusive busy (tokens_tab last_8 local_date copied) creates tokens-Guarded t r
