-- ===== src/Console/Panel/Laws.antt =====
-- Where the controls of the console lead.
use webhook_listener.Console.Panel.{
  initial, skip, Page, Effect, on_load, on_tenancy, on_event, console,
}
use webhook_listener.Prelude.{◌≡◌, refl, Bool, true, String, Option, arith}
use webhook_listener.Js.Value.{Value}
use webhook_listener.Js.Engine.{Engine}
use webhook_listener.Async.{Act, ◌>>=◌, catch, finally, settle_both}
use webhook_listener.Async.Stage.{Stage, Reach}
use webhook_listener.Async.Flight.Kept.{Preserves, Keeping, Reach-IsKept}
use webhook_listener.Api.{api_request}
use webhook_listener.View.Safe.{Safe-Offers}
use webhook_listener.Console.Tabs.{is_valid_tab, initial_tab}
use webhook_listener.Console.Navigation.{switch-IsValid, leave-IsValid, initial_tab-IsValid}
use webhook_listener.Console.Panel.Sound.{Sound, PagesAreSound, console_view-Safe}
use webhook_listener.Console.Storyboard.{
  State, handle_tag_click, copy, load_console, refresh_all, reclassify_event,
}
use webhook_listener.Console.Panel.Bars.{
  Event, press_menu, close_drawer, press_logout, press_login, press_banner, open_docs,
  press_heartbeat, press_refresh, press_clear, press_copy, press_tools, toggle_card, choose_tab,
  press_tag, press_reclassify,
}

abbrev pub IsOnTab : State → Type 0
IsOnTab s = is_valid_tab s.active_tab ≡ true

module _ ⦃js : Engine⦄ where
  refresh_all-Preserves : (tag : Value) → Preserves IsOnTab (catch (refresh_all tag) (λ e. skip))
  unfolding refresh_all Preserves ◌>>=◌ catch finally settle_both api_request
  refresh_all-Preserves tag = ground arith

  load_console-Preserves :
      (b : Bool) (tab : String) (tag : Value) → Preserves IsOnTab (load_console b tab tag)
  unfolding load_console Preserves ◌>>=◌ catch finally settle_both api_request
  load_console-Preserves b tab tag = ground arith

  reclassify_event-Preserves : (tag id : Value) → Preserves IsOnTab (reclassify_event tag id)
  unfolding reclassify_event Preserves ◌>>=◌ catch finally api_request
  reclassify_event-Preserves tag id = ground arith

  copy-Preserves : (key : String) → Preserves IsOnTab (copy key)
  unfolding copy Preserves ◌>>=◌
  copy-Preserves key = ground arith

  on_event-Preserves :
      (page : Page) (s : State) (m : Event) → Sound s m → Preserves IsOnTab (on_event page s m)
  unfolding on_event Preserves handle_tag_click is_valid_tab
  on_event-Preserves page s (choose_tab id) h = ((λ t p. h), tt)
  on_event-Preserves page s press_tools h = ((λ t p. switch-IsValid s.active_tab), tt)
  on_event-Preserves page s press_banner h = ((λ t p. refl), tt)
  on_event-Preserves page s open_docs h = ((λ t p. refl), tt)
  on_event-Preserves page s press_heartbeat h = ((λ t p. refl), tt)
  on_event-Preserves page s press_menu h = ((λ t p. p), tt)
  on_event-Preserves page s close_drawer h = ((λ t p. p), tt)
  on_event-Preserves page s press_logout h = tt
  on_event-Preserves page s press_login h = tt
  on_event-Preserves page s toggle_card h = tt
  on_event-Preserves page s press_clear h = ((λ t p. p), tt)
  on_event-Preserves page s (press_tag tag) h = ((λ t p. p), tt)
  on_event-Preserves page s press_refresh h = refresh_all-Preserves s.active_tag
  on_event-Preserves page s press_copy h = copy-Preserves "storyboard-ingress"
  on_event-Preserves page s (press_reclassify id) h = reclassify_event-Preserves s.active_tag id

  Effect-Preserves :
      (page : Page) (s : State) (a : Act State Unit) → Effect page s a → Preserves IsOnTab a
  unfolding Preserves
  Effect-Preserves page s a on_load =
      load_console-Preserves page.is_authenticated s.active_tab s.active_tag
  Effect-Preserves page s a on_tenancy =
      ((λ t p. leave-IsValid page.single_tenant t.active_tab p), tt)

  module _ (page : Page) (pages_sound : PagesAreSound page) where
    module _ (tab : Option String) where
      abbrev start : State
      start = initial (initial_tab tab page.user)

      console-Keeping : Keeping IsOnTab (console page tab)
      unfolding console
      console-Keeping = record {
        starts = initial_tab-IsValid tab page.user;
        opens =
            (Effect-Preserves page start _ on_load, (Effect-Preserves page start _ on_tenancy, tt));
        clicks = λ s m o.
            on_event-Preserves page s m (Safe-Offers (console_view-Safe page pages_sound s) o);
        effects = Effect-Preserves page;
      }

      -- If the pages and the metrics put only sound controls on the console: in
      -- every state that the console can reach from the first render, by any sequence of clicks,
      -- effects and replies and whatever the query parameter says, the active tab is a valid one.
      pub console-IsOnTab : (t : Stage State) → Reach (console page tab) t → IsOnTab t.ui
      console-IsOnTab t r = (Reach-IsKept IsOnTab (console page tab) console-Keeping r).0
