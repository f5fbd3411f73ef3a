-- ===== src/Console/Panel.antt =====
-- web/src/App.jsx, `App`: what the console shows around its pages, the storyboard, and what the
-- controls do.
pub mod Bars
pub mod Laws
pub mod Single
pub mod Sound
use webhook_listener.Console.Panel.Bars.{
  press_clear, press_heartbeat, press_reclassify, press_copy, press_tag, choose_tab, press_tools,
  press_refresh, toggle_card, Event, press_menu, close_drawer, press_logout, press_login,
  press_banner, open_docs, side_drawer, top_app_bar, enterprise_banner,
}
use webhook_listener.Prelude.{
  Bool, true, false, not, ◌&&◌, ◌||◌, String, ◌==◌, List, [], ◌∷◌, Option, none, some, length, ltb,
  nat_eq, if◌then◌else◌,
}
use webhook_listener.Js.Value.{Value, null, prop, truthy, to_text, ◌⧺◌}
use webhook_listener.Js.Decimal.{show}
use webhook_listener.Js.Dict.{Dict, get_or}
use webhook_listener.Js.Engine.{Engine}
use webhook_listener.Async.{Act, Result, ok, err, catch}
use webhook_listener.Async.Stage.{Component}
use webhook_listener.Async.Steps.{set_state, skip, map_result}
use webhook_listener.View.{View, nothing, ◌&◌, text, value, button, shown_if, either, each, is_nil}
use webhook_listener.View.Parts.{copy_button}
use webhook_listener.Card.Panel.{card_props, card_view}
use webhook_listener.Console.Tabs.{initial_tab, leave_enterprise, switch_tools}
use webhook_listener.Console.Storyboard.{
  State, initial, ingress_template, handle_tag_click, copy, load_console, refresh_all,
  reclassify_event,
}

-- What the console gets from outside: the session, the profile, texts of the browser, the metrics and
-- which cards are expanded, which are states of other components; and the pages of the other tabs.
pub record Page : Type 0 where
  pub user : Value
  pub is_authenticated : Bool
  pub single_tenant : Bool
  pub alias : Value
  pub base_url : String
  pub setup_price : String
  pub letter : Value → String
  pub local_clock : Value → String
  pub expanded : Value → Bool
  pub metrics : View Event
  pub content : String → View Event

module _ ⦃js : Engine⦄ (page : Page) where
  -- {events.map((event) => <StoryboardCard … />)}
  unfoldable pub event_cards : Dict Bool → List Value → Result (View Event)
  event_cards marks [] = ok nothing
  event_cards marks (event ∷ events) =
      let rest = event_cards marks events in
      let props =
        card_props page.local_clock (get_or (to_text (prop "id" event)) false marks) event in
      elim (card_view toggle_card press_tag press_reclassify (page.expanded event) props) [
        | ok card ↦ map_result rest (λ cards. card & cards)
        | err e ↦ err e
      ]

  unfoldable pub storyboard_head : State → View Event
  storyboard_head s =
      page.metrics
      & text "YOUR INGRESS URL (AUTO)"
      & button "" false press_refresh
      & value (ingress_template s.listeners page.alias page.base_url)
      & copy_button s.copied "storyboard-ingress" press_copy
      & button
          "AUTONOMOUS OPERATIONS Set up your 5-min Heartbeat Let AgentHermes autonomously monitor webhooks and email you only when meaningful actions are found."
          false press_heartbeat
      & text "Storyboard"
      & text (if s.fetching then "Syncing..." else "Live")
      & shown_if (not s.fetching && (not (is_nil s.listeners) || not (is_nil s.events))) (
          text (
            "Showing "
            ⧺ show (length s.events)
            ⧺ " recent events across "
            ⧺ show (length s.listeners)
            ⧺ " configured hooks."))
      & shown_if (is_nil s.events && not s.fetching)
          (text "No events detected yet. Send a payload to your ingress URL.")
      & shown_if (truthy s.active_tag)
          (text "Filtered by tag:" & value s.active_tag & button "Clear" false press_clear)

  unfoldable pub storyboard : State → Result (View Event)
  unfolding storyboard_head event_cards
  storyboard s =
      map_result (event_cards s.reclassifying_event_ids s.events)
        (λ cards. storyboard_head s & cards)

  unfoldable pub main_page : State → Result (View Event)
  unfolding storyboard
  main_page s =
      if s.active_tab == "storyboard"
      then storyboard s
      else if s.active_tab == "enterprise" && page.single_tenant
      then ok nothing
      else ok (page.content s.active_tab)

  unfoldable pub frame : State → View Event → View Event
  unfolding side_drawer top_app_bar enterprise_banner
  frame s main =
      shown_if (not page.single_tenant) (enterprise_banner page.setup_price)
      & top_app_bar page.letter page.user page.single_tenant
      & side_drawer s.is_drawer_open page.single_tenant
      & main
      & button (if s.active_tab == "urls" then "Open skills tools" else "Open URL tools") false
          press_tools

  -- A render that throws leaves nothing on the page.
  unfoldable pub console_view : State → View Event
  unfolding frame main_page
  console_view s = elim (main_page s) [ ok main ↦ frame s main | err e ↦ nothing ]

  -- Signing in and out, and expanding a card, change the states of other components.
  unfoldable pub on_event : State → Event → Act State Unit
  on_event s press_menu = set_state (λ t. record t { is_drawer_open = true })
  on_event s close_drawer = set_state (λ t. record t { is_drawer_open = false })
  on_event s press_logout = skip
  on_event s press_login = skip
  on_event s press_banner = set_state (λ t. record t { active_tab = "enterprise" })
  on_event s open_docs = set_state (λ t. record t { active_tab = "docs" })
  on_event s press_heartbeat = set_state (λ t. record t { active_tab = "heartbeat" })
  on_event s press_refresh = catch (refresh_all s.active_tag) (λ e. skip)
  on_event s press_clear = set_state (λ t. record t { active_tag = null })
  on_event s press_copy = copy "storyboard-ingress"
  on_event s press_tools = set_state (λ t. record t { active_tab = switch_tools s.active_tab })
  on_event s toggle_card = skip
  on_event s (choose_tab id) = set_state (λ t. record t { active_tab = id; is_drawer_open = false })
  on_event s (press_tag tag) = set_state (handle_tag_click tag)
  on_event s (press_reclassify id) = reclassify_event s.active_tag id

-- The effects on the session, the tab and the tag, and the one that leaves the enterprise tab.
pub data Effect ⦃js : Engine⦄ (page : Page) (s : State) : Act State Unit → Type 0 where
  on_load : Effect page s (load_console page.is_authenticated s.active_tab s.active_tag)
  on_tenancy :
      Effect page s (
        set_state (λ t. record t { active_tab = leave_enterprise page.single_tenant t.active_tab }))

module _ ⦃js : Engine⦄ where
  -- `tab` is the query parameter.
  unfoldable pub console : Page → (tab : Option String) → Component State Event
  console page tab =
      let start = initial (initial_tab tab page.user) in
      record {
        start = start;
        opening =
            load_console page.is_authenticated start.active_tab start.active_tag
            ∷ set_state
                (λ t. record t { active_tab = leave_enterprise page.single_tenant t.active_tab })
            ∷ [];
        view = console_view page;
        on = on_event page;
        effect = Effect page;
      }
