-- ===== src/Console/Navigation.antt =====
-- Where a user can get to in the console.
use webhook_listener.Prelude.{
  ◌≡◌, refl, ◌≢◌, Bool, true, false, ◌&&◌, String, ◌==◌, eq_iff, Option, none, some, any, arith,
  if◌then◌else◌, Bool-cases, inl, inr,
}
use webhook_listener.Js.Value.{Value, truthy}
use webhook_listener.Console.Tabs.{
  is_valid_tab, initial_tab, DrawerTab, drawer_tabs, leave_enterprise, switch_tools,
}

-- One move: a tab of the drawer, the round button, a link of a page, or the effect that runs after a
-- render.
pub data Move (single_tenant : Bool) : String → String → Type 0 where
  drawer :
      (from : String) (tab : DrawerTab)
      → any (λ t. t.id == tab.id) (drawer_tabs single_tenant) ≡ true
      → Move single_tenant from tab.id
  switch : (from : String) → Move single_tenant from (switch_tools from)
  open_enterprise : (from : String) → Move single_tenant from "enterprise"
  open_docs : (from : String) → Move single_tenant from "docs"
  open_heartbeat : (from : String) → Move single_tenant from "heartbeat"
  rendered : (from : String) → Move single_tenant from (leave_enterprise single_tenant from)

pub data Moves (single_tenant : Bool) (start : String) : String → Type 0 where
  here : Moves single_tenant start start
  then_move :
      {tab next : String}
      → Moves single_tenant start tab
      → Move single_tenant tab next
      → Moves single_tenant start next

if-IsValid :
    (b : Bool) (x y : String)
    → (b ≡ true → is_valid_tab x ≡ true)
    → (b ≡ false → is_valid_tab y ≡ true)
    → is_valid_tab (if b then x else y) ≡ true
if-IsValid true x y p q = p refl
if-IsValid false x y p q = q refl

start-IsValid : (user : Value) → is_valid_tab (if truthy user then "storyboard" else "home") ≡ true
unfolding is_valid_tab
start-IsValid user = if-IsValid (truthy user) "storyboard" "home" (λ _. refl) (λ _. refl)

pub initial_tab-IsValid :
    (tab : Option String) (user : Value) → is_valid_tab (initial_tab tab user) ≡ true
unfolding initial_tab
initial_tab-IsValid none user = start-IsValid user
initial_tab-IsValid (some tab) user =
    if-IsValid (is_valid_tab tab) tab _ (λ h. h) (λ _. start-IsValid user)

drawer-valid :
    (single_tenant : Bool) (id : String)
    → any (λ (t : DrawerTab). t.id == id) (drawer_tabs single_tenant) ≡ true
    → is_valid_tab id ≡ true
unfolding drawer_tabs is_valid_tab
drawer-valid true id h = ground arith
drawer-valid false id h = ground arith

pub switch-IsValid : (from : String) → is_valid_tab (switch_tools from) ≡ true
unfolding switch_tools is_valid_tab
switch-IsValid from = if-IsValid (from == "urls") "skills" "urls" (λ _. refl) (λ _. refl)

pub leave-IsValid :
    (single_tenant : Bool) (from : String)
    → is_valid_tab from ≡ true
    → is_valid_tab (leave_enterprise single_tenant from) ≡ true
unfolding leave_enterprise
leave-IsValid single_tenant from h =
    if-IsValid (single_tenant && from == "enterprise") "home" from
      (λ _. unfold is_valid_tab in refl) (λ _. h)

home_not_enterprise : ◌≢◌ {A = String} "home" "enterprise"
home_not_enterprise = ground (arith, eq_iff "home" "enterprise")

ne_of_test : (tab : String) → (tab == "enterprise") ≡ false → tab ≢ "enterprise"
ne_of_test tab e = ground (arith, eq_iff tab "enterprise")

leave-ne : (tab : String) → leave_enterprise true tab ≢ "enterprise"
unfolding leave_enterprise
leave-ne tab = elim (Bool-cases (tab == "enterprise")) [
  | inl e ↦ rw e home_not_enterprise
  | inr e ↦ rw e (λ p. ne_of_test tab e p)
]

leave-keeps :
    (single_tenant : Bool) (tab : String)
    → tab ≢ "enterprise"
    → leave_enterprise single_tenant tab ≡ tab
unfolding leave_enterprise
leave-keeps single_tenant tab h = ground (arith, eq_iff tab "enterprise")

Move-IsValid :
    {single_tenant : Bool} {from to : String}
    → Move single_tenant from to
    → is_valid_tab from ≡ true
    → is_valid_tab to ≡ true
Move-IsValid {single_tenant} (drawer from tab listed) h = drawer-valid single_tenant tab.id listed
Move-IsValid (switch from) h = switch-IsValid from
Move-IsValid (open_enterprise from) h = unfold is_valid_tab in refl
Move-IsValid (open_docs from) h = unfold is_valid_tab in refl
Move-IsValid (open_heartbeat from) h = unfold is_valid_tab in refl
Move-IsValid {single_tenant} (rendered from) h = leave-IsValid single_tenant from h

Moves-valid :
    (single_tenant : Bool) (param : Option String) (user : Value) {tab : String}
    → Moves single_tenant (initial_tab param user) tab
    → is_valid_tab tab ≡ true
Moves-valid single_tenant param user here = initial_tab-IsValid param user
Moves-valid single_tenant param user (then_move ms m) =
    Move-IsValid m (Moves-valid single_tenant param user ms)

-- From the first render on, whatever the address says and wherever the user goes, the active tab is
-- one of the valid tabs; and in a single-tenant deployment the effect of the next render leaves the
-- enterprise tab for the home tab, and leaves every other tab alone.
pub Moves-IsValid :
    (single_tenant : Bool) (param : Option String) (user : Value) {tab : String}
    → Moves single_tenant (initial_tab param user) tab
    → (is_valid_tab tab ≡ true)
      × (leave_enterprise true tab ≢ "enterprise")
      × (leave_enterprise single_tenant tab
          ≡ (if single_tenant && tab == "enterprise" then "home" else tab))
Moves-IsValid single_tenant param user m =
    (Moves-valid single_tenant param user m, leave-ne _, unfold leave_enterprise in refl)
