-- ===== src/Console/Panel/Single.antt =====
-- No event of the storyboard is reclassified twice at once.
use mathlib.Core.Path.{subst}
use webhook_listener.Prelude.{
  ◌≡◌, refl, Bool, true, false, String, ◌==◌, eq_iff, eq_refl, inl, inr, Option, arith, Bool-cases,
}
use webhook_listener.Js.Value.{Value, to_text}
use webhook_listener.Js.Dict.{get, get_or, get-put, get-remove}
use webhook_listener.Js.Engine.{Engine}
use webhook_listener.Async.{Act, ◌>>=◌}
use webhook_listener.Async.Stage.{Stage, Reach}
use webhook_listener.Async.Flight.{Quiet, Holds, Ends, Takes}
use webhook_listener.Async.Flight.Rules.{quiet_rules, Quiet-catch, Holds-finally}
use webhook_listener.Async.Flight.Single.{Guarded, Exclusive, Duty, Reach-Exclusive}
use webhook_listener.Console.Panel.Bars.{
  Event, press_menu, close_drawer, press_logout, press_login, press_banner, open_docs,
  press_heartbeat, press_refresh, press_clear, press_copy, press_tools, toggle_card, choose_tab,
  press_tag, press_reclassify,
}
use webhook_listener.Console.Panel.{Page, Effect, on_load, on_tenancy, on_event, console}
use webhook_listener.View.Safe.{Safe-Offers}
use webhook_listener.Console.Tabs.{initial_tab}
use webhook_listener.Api.Quiet.{api_request-Quiet}
use webhook_listener.Console.Panel.Sound.{marked, Sound, PagesAreSound, console_view-Safe}
use webhook_listener.Console.Storyboard.{
  State, initial, fetch_listeners, fetch_events, handle_tag_click, copy, load_console, refresh_all,
  reclassify_event, start_reclassify, end_reclassify,
}

start-marked : (id : Value) (s : State) → marked (to_text id) (start_reclassify id s) ≡ true
unfolding marked get_or
start-marked id s =
    ground (
      arith,
      get-put (to_text id) (to_text id) true s.reclassifying_event_ids,
      eq_refl (to_text id),
    )

end-marked : (id : Value) (s : State) → marked (to_text id) (end_reclassify id s) ≡ false
unfolding marked get_or
end-marked id s =
    ground
      (arith, get-remove (to_text id) (to_text id) s.reclassifying_event_ids, eq_refl (to_text id))

module _ (k : String) (id : Value) (other : (to_text id == k) ≡ false) where
  start-other : (s : State) → marked k (start_reclassify id s) ≡ marked k s
  unfolding marked get_or
  start-other s = ground (arith, other, get-put (to_text id) k true s.reclassifying_event_ids)

  end-other : (s : State) → marked k (end_reclassify id s) ≡ marked k s
  unfolding marked get_or
  end-other s = ground (arith, other, get-remove (to_text id) k s.reclassifying_event_ids)

module _ ⦃js : Engine⦄ (k : String) where
  fetch_events-Quiet : (tag : Value) → Quiet (marked k) (fetch_events tag)
  unfolding fetch_events marked
  fetch_events-Quiet tag = search (quiet_rules, api_request-Quiet) depth 30

  fetch_listeners-Quiet : Quiet (marked k) fetch_listeners
  unfolding fetch_listeners marked
  fetch_listeners-Quiet = search (quiet_rules, api_request-Quiet) depth 30

  refresh_all-Quiet : (tag : Value) → Quiet (marked k) (refresh_all tag)
  unfolding refresh_all
  refresh_all-Quiet tag = search (quiet_rules, fetch_listeners-Quiet, fetch_events-Quiet) depth 30

  load_console-Quiet :
      (b : Bool) (tab : String) (tag : Value) → Quiet (marked k) (load_console b tab tag)
  unfolding load_console
  load_console-Quiet b tab tag =
      search (quiet_rules, fetch_listeners-Quiet, fetch_events-Quiet) depth 30

  reclassify_event-other :
      (tag id : Value) → (to_text id == k) ≡ false → Quiet (marked k) (reclassify_event tag id)
  unfolding reclassify_event marked
  reclassify_event-other tag id e =
      search
        (quiet_rules, api_request-Quiet, fetch_events-Quiet, start-other k id e, end-other k id e)
        depth 30

  copy-Quiet : (key : String) → Quiet (marked k) (copy key)
  unfolding copy Quiet marked ◌>>=◌
  copy-Quiet key = ground arith

module _ ⦃js : Engine⦄ where
  reclassify_event-Takes : (tag id : Value) → Takes (marked (to_text id)) (reclassify_event tag id)
  unfolding reclassify_event Takes Holds Ends ◌>>=◌ marked
  reclassify_event-Takes tag id = (
    start-marked id,
    Holds-finally (marked (to_text id)) _ _
        (search (quiet_rules, api_request-Quiet, fetch_events-Quiet) depth 30) (end-marked id),
  )

  -- The buttons that reclassify the events with the key `k`.
  abbrev pub reclassifies : String → State → Event → Bool
  reclassifies k s (press_reclassify id) = to_text id == k
  reclassifies k s m = false

  reclassify_event-Duty :
      (k : String) (s : State) (tag id : Value)
      → marked (to_text id) s ≡ false
      → Duty (marked k) (to_text id == k) s (reclassify_event tag id)
  reclassify_event-Duty k s tag id h = elim (Bool-cases (to_text id == k)) [
    | inl e ↦ rw e (
        subst (λ j. Duty (marked j) true s (reclassify_event tag id)) ((eq_iff (to_text id) k).0 e)
          (h, reclassify_event-Takes tag id))
    | inr e ↦ rw e (reclassify_event-other k tag id e)
  ]

  module _ (k : String) (page : Page) where
    on_event-Duty :
        (s : State) (m : Event)
        → Sound s m
        → Duty (marked k) (reclassifies k s m) s (on_event page s m)
    unfolding on_event Quiet handle_tag_click marked
    on_event-Duty s (press_reclassify id) h = reclassify_event-Duty k s s.active_tag id h
    on_event-Duty s press_refresh h =
        (Quiet-catch (marked k) _ _ (refresh_all-Quiet k s.active_tag) (λ e. tt))
    on_event-Duty s press_copy h = (copy-Quiet k "storyboard-ingress")
    on_event-Duty s (choose_tab id) h = ((λ t. refl), tt)
    on_event-Duty s press_tools h = ((λ t. refl), tt)
    on_event-Duty s press_banner h = ((λ t. refl), tt)
    on_event-Duty s open_docs h = ((λ t. refl), tt)
    on_event-Duty s press_heartbeat h = ((λ t. refl), tt)
    on_event-Duty s press_menu h = ((λ t. refl), tt)
    on_event-Duty s close_drawer h = ((λ t. refl), tt)
    on_event-Duty s press_logout h = tt
    on_event-Duty s press_login h = tt
    on_event-Duty s toggle_card h = tt
    on_event-Duty s press_clear h = ((λ t. refl), tt)
    on_event-Duty s (press_tag tag) h = ((λ t. refl), tt)

    Effect-Quiet : (s : State) (a : Act State Unit) → Effect page s a → Quiet (marked k) a
    unfolding Quiet marked
    Effect-Quiet s a on_load = load_console-Quiet k page.is_authenticated s.active_tab s.active_tag
    Effect-Quiet s a on_tenancy = ((λ t. refl), tt)

    module _ (tab : Option String) (pages_sound : PagesAreSound page) where
      abbrev start : State
      start = initial (initial_tab tab page.user)

      console-Guarded : Guarded (marked k) (console page tab) (reclassifies k)
      unfolding console marked get_or get
      console-Guarded = record {
        down = refl;
        opens = (Effect-Quiet start _ on_load, (Effect-Quiet start _ on_tenancy, tt));
        clicks = λ s m o. on_event-Duty s m (Safe-Offers (console_view-Safe page pages_sound s) o);
        effects = Effect-Quiet;
      }

      -- If the pages and the metrics put only sound controls on the console: in every
      -- state that it can reach, by any sequence of clicks, replies and answers, a press
      -- of a button that reclassifies an event with a given key is offered only while the
      -- mark of the key is down, the request puts the mark up first, and takes it down
      -- when it neither sends nor waits any more; no other control and no effect ever
      -- touches that mark; so at most one request for the key is under way, the mark is up
      -- exactly while one waits, and it comes down, whatever the handlers wait for.
      pub reclassify-IsSingle :
          (t : Stage State)
          → Reach (console page tab) t
          → Exclusive (marked k) (console page tab) (reclassifies k) t
      reclassify-IsSingle t r =
          Reach-Exclusive (marked k) (console page tab) (reclassifies k) console-Guarded t r
