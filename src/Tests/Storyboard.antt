-- ===== src/Tests/Storyboard.antt =====
-- The console with an event on the storyboard, whose button is pressed.
use webhook_listener.Tests.{sample_engine, row, rows_text}
use webhook_listener.Tests.Panels.{no_text}
use webhook_listener.Prelude.{◌≡◌, refl, false, true, [], ◌∷◌, inl, inr, some}
use webhook_listener.Js.Value.{str, obj, end, truthy, to_text, prop}
use webhook_listener.Async.{responded, settle_both, ◌>>=◌, catch, finally}
use webhook_listener.Async.Stage.{
  Stage, Reach, Component, here, next, click, resume, begin, choice, reply, resumed, first, after,
  residue,
}
use webhook_listener.Async.Flight.Single.{Exclusive}
use webhook_listener.View.{Offers, nothing}
use webhook_listener.View.Safe.{of_nothing}
use webhook_listener.Console.Storyboard.{State, load_console, fetch_events, fetch_listeners}
use webhook_listener.Console.Tabs.{initial_tab, is_valid_tab, leave_enterprise}
use webhook_listener.Api.{api_request, reply_result}
use webhook_listener.Json.{safe_json_parse}
use webhook_listener.Console.Panel.{
  Page, console, console_view, main_page, storyboard, event_cards, frame,
}
use webhook_listener.Card.{is_marketing, card_event}
use webhook_listener.Card.Panel.{card_view, card_props, card_body}
use webhook_listener.Js.Dict.{get, get_or, put}
use webhook_listener.Console.Panel.Bars.{Event, press_reclassify}
use webhook_listener.Console.Panel.Sound.{PagesAreSound, marked}
use webhook_listener.Console.Panel.Single.{reclassify-IsSingle, reclassifies}

abbrev page : Page
page = record {
  user = obj end;
  is_authenticated = true;
  single_tenant = false;
  alias = str "me";
  base_url = "";
  setup_price = "200";
  letter = no_text;
  local_clock = no_text;
  expanded = λ v. false;
  metrics = nothing;
  content = λ tab. nothing;
}

pages_sound : PagesAreSound page
pages_sound = record { content = λ s tab. of_nothing; metrics = λ s. of_nothing }

abbrev app : Component State Event
app = console page (some "storyboard")

reclassify-offered :
    (s : State)
    → s.active_tab ≡ "storyboard"
    → s.events ≡ row ∷ []
    → s.reclassifying_event_ids ≡ []
    → Offers (console_view page s) (press_reclassify (str "7"))
unfolding console_view main_page storyboard event_cards frame card_view card_props card_body
    is_marketing card_event get_or get put prop Offers truthy safe_json_parse to_text
reclassify-offered s h k m =
    rw (h, k, m)
      (inr (inr (inr (inl (inr (inl (inr (inr (inr (inr (inr (inl (refl, refl)))))))))))))

-- The events are loaded, with one row.
loaded :
    (t : Stage State) × (Reach app t)
    × (t.ui.active_tab ≡ "storyboard")
    × (t.ui.events ≡ row ∷ [])
    × (t.ui.reclassifying_event_ids ≡ [])
unfolding console initial_tab is_valid_tab load_console fetch_events fetch_listeners settle_both
    leave_enterprise after residue ◌>>=◌ catch finally api_request reply_result truthy
    safe_json_parse to_text
loaded = (
  _,
  next (next here (resume _ (resumed (choice _ false) (first _))))
      (resume _ (resumed (reply _ (responded 200 rows_text)) (first _))),
  refl,
  refl,
  refl,
)

-- The button of the row is pressed.
abbrev pressed : Stage State
pressed = begin (app.on loaded.0.ui (press_reclassify (str "7"))) loaded.0.ui loaded.0.running

pressed-Reach : Reach app pressed
unfolding console
pressed-Reach = next loaded.1 (
    click loaded.0 (press_reclassify (str "7"))
      (reclassify-offered loaded.0.ui loaded.2 loaded.3 loaded.4))

reclassify-IsSingle_example : Exclusive (marked "7") app (reclassifies "7") pressed
reclassify-IsSingle_example =
    reclassify-IsSingle "7" page (some "storyboard") pages_sound pressed pressed-Reach
