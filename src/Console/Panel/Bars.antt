-- ===== src/Console/Panel/Bars.antt =====
-- web/src/components/SideDrawer.jsx and TopAppBar.jsx, and the banner of web/src/App.jsx: the bars
-- around the pages, with the events of the console.
use webhook_listener.Prelude.{Bool, false, String}
use webhook_listener.Js.Value.{Value, str, prop, truthy, ◌or◌, ◌⧺◌}
use webhook_listener.View.{View, ◌&◌, text, value, button, link, shown_if, either, each}
use webhook_listener.Console.Tabs.{drawer_tabs}

pub data Event : Type 0 where
  press_menu close_drawer press_logout press_login press_banner open_docs : Event
  press_heartbeat press_refresh press_clear press_copy press_tools toggle_card : Event
  choose_tab : (id : String) → Event
  press_tag press_reclassify : Value → Event

-- The backdrop and the cross both close the drawer, and a tab is chosen and closes it.
unfoldable pub side_drawer : (is_open single_tenant : Bool) → View Event
unfolding drawer_tabs
side_drawer is_open single_tenant = shown_if is_open (
    button "" false close_drawer
    & text "Navigation"
    & button "" false close_drawer
    & each (drawer_tabs single_tenant) (λ tab. button tab.label false (choose_tab tab.id))
    & link "Open Hermes UI" "http://localhost:8787"
    & text "AgentHook v1.0")

-- `initial` is the first letter of the address, in upper case.
unfoldable pub top_app_bar : (initial : Value → String) → (user : Value) → Bool → View Event
top_app_bar initial user single_tenant =
    button "" false press_menu
    & text "AgentHook"
    & either (truthy user)
        (value (prop "owner_email" user or str "Signed in")
          & value (prop "public_alias" user or prop "slug" user or str "dashboard")
          & button "Sign out" false press_logout
          & text (initial (prop "owner_email" user or str "A")))
        (either single_tenant (text "Single tenant") (button "Login" false press_login))

unfoldable pub enterprise_banner : (setup_price : String) → View Event
enterprise_banner setup_price =
    button
      ("Switch to Enterprise: No monthly subscription. One setup cost of $" ⧺ setup_price
        ⧺ ". Learn more →")
      false press_banner
