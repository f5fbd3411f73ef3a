-- ===== src/Tabs/Byok/Flight.antt =====
-- web/src/App.jsx, `BYOKSettings` on the page: saves of a provider do not overlap.
use webhook_listener.Prelude.{true, ◌≡◌, refl, Bool, false, arith}
use webhook_listener.Js.Engine.{Engine}
use webhook_listener.Async.{◌>>=◌, catch, finally}
use webhook_listener.Async.Stage.{Stage, Reach}
use webhook_listener.Async.Flight.{Quiet, Holds, Ends, Takes}
use webhook_listener.Async.Flight.Single.{Guarded, Exclusive, Duty, Reach-Exclusive}
use webhook_listener.Api.{api_request}
use webhook_listener.View.Safe.{Safe, Safe-Offers, safe_rules}
use webhook_listener.Tabs.Byok.{State, fetch_providers, save}
use webhook_listener.Tabs.Byok.Panel.{
  Event, byok_view, byok_panel, on_event, choose_provider, type_key, type_url, type_model,
  press_save,
}

abbrev pub busy : State → Bool
busy s = s.saving

module _ ⦃js : Engine⦄ where
  fetch_providers-Quiet : Quiet busy fetch_providers
  unfolding fetch_providers Quiet ◌>>=◌ catch finally api_request
  fetch_providers-Quiet = ground arith

  save-Takes : (s : State) → Takes busy (save s)
  unfolding save Quiet Holds Ends Takes ◌>>=◌ catch finally api_request
  save-Takes s = ground arith

  -- Only the button that saves waits for the flag.
  abbrev Needs : State → Event → Type 0
  Needs s press_save = busy s ≡ false
  Needs s m = Unit

  abbrev pub saves : State → Event → Bool
  saves s press_save = true
  saves s m = false

  on_event-Duty : (s : State) (m : Event) → Needs s m → Duty busy (saves s m) s (on_event s m)
  unfolding on_event Quiet
  on_event-Duty s press_save h = (h, save-Takes s)
  on_event-Duty s (choose_provider v) h = ((λ t. refl), tt)
  on_event-Duty s (type_key v) h = ((λ t. refl), tt)
  on_event-Duty s (type_url v) h = ((λ t. refl), tt)
  on_event-Duty s (type_model v) h = ((λ t. refl), tt)

  byok_view-Safe : (s : State) → Safe (Needs s) (byok_view s)
  unfolding byok_view
  byok_view-Safe s = search (safe_rules, tt) depth 30

  byok-Guarded : Guarded busy byok_panel saves
  unfolding byok_panel
  byok-Guarded = record {
    down = refl;
    opens = (fetch_providers-Quiet, tt);
    clicks = λ s m o. on_event-Duty s m (Safe-Offers (byok_view-Safe s) o);
    effects = λ s a e. elim e [ ];
  }

  -- In every state that the panel can reach, by any sequence of clicks, replies and answers: a
  -- press of the button that saves is offered only while its mark is down, the save puts the
  -- mark up first, and takes it down when it neither sends nor waits any more; no other
  -- control and no effect ever touches the mark; so at most one save is under way, the mark is
  -- up exactly while one waits, and it comes down, whatever the handlers wait for.
  pub byok-IsSingle : (t : Stage State) → Reach byok_panel t → Exclusive busy byok_panel saves t
  byok-IsSingle t r = Reach-Exclusive busy byok_panel saves byok-Guarded t r
