-- ===== src/Tests/Tools.antt =====
-- Runs of the URLs tab, the skills tab and the console.
use webhook_listener.Tests.{sample_engine, row}
use webhook_listener.Tests.Panels.{press, no_text}
use webhook_listener.Prelude.{◌||◌, ◌≡◌, refl, false, List, [], ◌∷◌, inl, inr, some}
use webhook_listener.Js.Value.{str, null, strict_eq, truthy}
use webhook_listener.Async.{◌>>=◌, finally, catch, gather, join_both}
use webhook_listener.Async.Steps.{skip}
use webhook_listener.Async.Stage.{Reach, Component, here, next, click, after}
use webhook_listener.Async.Flight.{Quiet}
use webhook_listener.Async.Flight.Single.{Exclusive}
use webhook_listener.Api.{api_request}
use webhook_listener.View.{Offers, nothing, either}
use webhook_listener.View.Safe.{of_nothing}
use webhook_listener.Urls.State as UrlsState
use webhook_listener.Urls.State.{follow_user, follow_profile}
use webhook_listener.Urls.Identities.{fetch_webhook_identities}
use webhook_listener.Urls.Listeners.{load_all}
use webhook_listener.Urls.Panel.Cards as UrlsCards
use webhook_listener.Urls.Panel as UrlsPanel
use webhook_listener.Urls.Panel.{urls_tab, urls_view}
use webhook_listener.Urls.Flight as UrlsFlight
use webhook_listener.Urls.Flight.{urls-IsSingle}
use webhook_listener.Skills.State as SkillsState
use webhook_listener.Skills.State.{ListenerOption, selected_listener}
use webhook_listener.Skills.Panel.Forms as SkillsForms
use webhook_listener.Skills.Panel.{skills_tab, skills_view, is_none, bootstrap_panel}
use webhook_listener.Skills.Effects.{
  sync_selection, prefetch_skills, load_skills, load_recent_events, fetch_skills_for_type,
}
use webhook_listener.Console.Tabs.{initial_tab, is_valid_tab, leave_enterprise}
use webhook_listener.Console.Storyboard.{load_console}
use webhook_listener.Skills.Flight as SkillsFlight
use webhook_listener.Skills.Flight.Page as SkillsPage
use webhook_listener.Skills.Flight.Page.{skills-IsSingle}
use webhook_listener.Console.Storyboard as Storyboard
use webhook_listener.Console.Panel as ConsolePanel
use webhook_listener.Console.Panel.{console, console_view, frame, main_page}
use webhook_listener.Console.Panel.Bars as Bars
use webhook_listener.Console.Panel.Sound.{PagesAreSound}
use webhook_listener.Console.Panel.Laws.{IsOnTab, console-IsOnTab}

abbrev page : UrlsCards.Page
page = record {
  base_url = "";
  mail_domain = "";
  copied = "";
  local_date = no_text;
  local_time = no_text;
}

abbrev urls : Component UrlsState.State UrlsCards.Event
urls = urls_tab page null null [] skip

create_listener-offered :
    (s : UrlsState.State)
    → s.submitting ≡ false
    → Offers (urls_view page [] s) UrlsCards.press_create
unfolding urls_view UrlsPanel.create_panel Offers
create_listener-offered s h =
    inr (inr (inl (inr (inr (inr (inr (inr (inr (inr (inr (inr (inr (h, refl)))))))))))))

listener_created : Reach urls (press urls UrlsCards.press_create)
unfolding urls_tab load_all fetch_webhook_identities follow_user follow_profile after ◌>>=◌ finally
    catch api_request
listener_created = next here (click _ UrlsCards.press_create (create_listener-offered _ refl))

skip-Quiet : Quiet UrlsFlight.busy skip
unfolding Quiet
skip-Quiet = tt

urls-IsSingle_example :
    Exclusive UrlsFlight.busy urls
      (UrlsFlight.creates skip skip-Quiet)
      (press urls UrlsCards.press_create)
urls-IsSingle_example =
    urls-IsSingle skip skip-Quiet page [] null null (press urls UrlsCards.press_create)
      listener_created

abbrev options : List ListenerOption
options = record { label = str "repo"; value = str "github"; listener = row } ∷ []

abbrev skills : Component SkillsState.State SkillsForms.Event
skills = skills_tab no_text "" options skip

preset-offered :
    (s : SkillsState.State)
    → (s.preset_busy || is_none (selected_listener options s.selected_type_key)) ≡ false
    → Offers (skills_view no_text "" options s) SkillsForms.press_preset
unfolding skills_view bootstrap_panel either Offers
preset-offered s h = inr (inr (inr (inl (inr (inr (inr (inr (inl (h, refl)))))))))

preset_applied : Reach skills (press skills SkillsForms.press_preset)
unfolding skills_tab sync_selection prefetch_skills load_skills load_recent_events
    fetch_skills_for_type gather join_both truthy strict_eq selected_listener after ◌>>=◌ finally
    catch api_request
preset_applied = next here (click _ SkillsForms.press_preset (preset-offered _ refl))

skip-Quiet_skills : Quiet SkillsFlight.busy skip
unfolding Quiet
skip-Quiet_skills = tt

skills-IsSingle_example :
    Exclusive SkillsFlight.busy skills
      (SkillsPage.installs options)
      (press skills SkillsForms.press_preset)
skills-IsSingle_example =
    skills-IsSingle no_text "" options skip skip-Quiet_skills
      (press skills SkillsForms.press_preset) preset_applied

abbrev console_page : ConsolePanel.Page
console_page = record {
  user = null;
  is_authenticated = false;
  single_tenant = false;
  alias = str "me";
  base_url = "";
  setup_price = "200";
  letter = no_text;
  local_clock = no_text;
  expanded = λ v. false;
  metrics = nothing;
  content = λ tab. nothing;
}

pages_sound : PagesAreSound console_page
pages_sound = record { content = λ s tab. of_nothing; metrics = λ s. of_nothing }

abbrev app : Component Storyboard.State Bars.Event
app = console console_page (some "docs")

menu-offered :
    (s : Storyboard.State)
    → s.active_tab ≡ "docs"
    → Offers (console_view console_page s) Bars.press_menu
unfolding console_view main_page frame Bars.top_app_bar Offers
menu-offered s h = rw h (inr (inl (inl (refl, refl))))

menu_pressed : Reach app (press app Bars.press_menu)
unfolding console initial_tab is_valid_tab load_console leave_enterprise after ◌>>=◌
menu_pressed = next here (click _ Bars.press_menu (menu-offered _ refl))

console-IsOnTab_example : IsOnTab (press app Bars.press_menu).ui
console-IsOnTab_example =
    console-IsOnTab console_page pages_sound (some "docs") (press app Bars.press_menu) menu_pressed
