-- ===== src/Console/Tabs.antt =====
-- The tabs of the console, and how the shell moves between them.
use webhook_listener.Prelude.{
  Bool, not, ◌&&◌, String, ◌==◌, List, [], ◌∷◌, Option, none, some, any, filter, if◌then◌else◌,
}
use webhook_listener.Js.Value.{Value, truthy}

-- VALID_TABS
abbrev pub valid_tabs : List String
valid_tabs =
    "home" ∷ "heartbeat" ∷ "storyboard" ∷ "skills" ∷ "integrations" ∷ "integration-secrets" ∷ "urls"
    ∷ "api-tokens" ∷ "enterprise" ∷ "docs" ∷ "byok" ∷ []

unfoldable pub is_valid_tab : String → Bool
is_valid_tab tab = any (λ t. t == tab) valid_tabs

-- The tab of the first render, from the query parameter `tab` and the user.
unfoldable pub initial_tab : Option String → Value → String
unfolding is_valid_tab
initial_tab none user = if truthy user then "storyboard" else "home"
initial_tab (some tab) user =
    if is_valid_tab tab then tab else if truthy user then "storyboard" else "home"

pub record DrawerTab : Type 0 where
  pub id : String
  pub label : String

abbrev all_drawer_tabs : List DrawerTab
all_drawer_tabs =
    record { id = "home"; label = "Home" }
    ∷ record { id = "heartbeat"; label = "Heartbeat" }
    ∷ record { id = "storyboard"; label = "Storyboard" }
    ∷ record { id = "skills"; label = "Skills" }
    ∷ record { id = "integrations"; label = "Integrations" }
    ∷ record { id = "integration-secrets"; label = "Secrets" }
    ∷ record { id = "urls"; label = "URLs" }
    ∷ record { id = "api-tokens"; label = "API Tokens" }
    ∷ record { id = "enterprise"; label = "Enterprise" }
    ∷ record { id = "docs"; label = "Docs" }
    ∷ record { id = "byok"; label = "BYOK" }
    ∷ []

-- The tabs that the drawer offers.
unfoldable pub drawer_tabs : Bool → List DrawerTab
drawer_tabs single_tenant =
    filter (λ tab. not (single_tenant && tab.id == "enterprise")) all_drawer_tabs

-- The effect that leaves the enterprise tab in a single-tenant deployment.
unfoldable pub leave_enterprise : Bool → String → String
leave_enterprise single_tenant tab = if single_tenant && tab == "enterprise" then "home" else tab

-- The round button at the corner.
unfoldable pub switch_tools : String → String
switch_tools tab = if tab == "urls" then "skills" else "urls"
