-- ===== src/Tests/Pages.antt =====
-- Runs of the larger tabs, the console, the login form, the card and the metrics.
use webhook_listener.Tests.{sample_engine, row, answered, world}
use webhook_listener.Tests.Panels.{press, no_text}
use webhook_listener.Prelude.{
  ℕ, ◌≡◌, refl, false, true, ◌||◌, ◌⊎◌, ◌++◌, String, [], ◌∷◌, inr, some, length, ◌==◌,
}
use webhook_listener.Js.Value.{
  Value, obj, arr, end, nil, num, items, field, prop, str, null, undefined, strict_eq,
}
use webhook_listener.Js.Decimal.{show}
use webhook_listener.Js.Text.{trim}
use webhook_listener.Async.{Act, pure, exec, finished, ok, responded, Turn}
use webhook_listener.Async.Steps.{OnTest}
use webhook_listener.Async.Stage.{Stage, Reach, Component, here, next, click, after}
use webhook_listener.Async.Flight.{Quiet}
use webhook_listener.Async.Flight.Single.{Exclusive}
use webhook_listener.View.{Offers}
use webhook_listener.Auth.Login as Login
use webhook_listener.Auth.Login.Form as Form
use webhook_listener.Auth.Login.Form.{login_form, login_view, login-IsSingle}
use webhook_listener.Card.{CardEvent, card_event, display_text, format_payload, has_raw_behind}
use webhook_listener.Card.Panel.{Control, toggle_expanded, card_on, content}
use webhook_listener.Card.Reveal.{Shows, content-reveals}
use webhook_listener.Pages.Metrics as Metrics
use webhook_listener.Pages.Metrics.{fetch_stats, fetch_stats-counts, stats_request}
use webhook_listener.Urls.State as UrlsState
use webhook_listener.Urls.State.{initial}
use webhook_listener.Urls.Identities.{change_identity_status}
use webhook_listener.Urls.Panel.Cards.{Page, identity_row, press_status}
use webhook_listener.Urls.Marks.{AwaitsReply, block_request, pressed, identity_row-Offers_again}

abbrev quiet_login : String → Act Login.State Value
quiet_login c = pure null

abbrev form : Component Login.State Form.Event
form = login_form quiet_login null "" "" (some "c")

submit-offered :
    (s : Login.State)
    → (s.busy || trim s.credential == "") ≡ false
    → Offers (login_view null "" "" s) Form.press_submit
unfolding login_view Offers
submit-offered s h = inr (inr (inr (inr (inr (inr (inr (inr (h, refl))))))))

submitted : Reach form (press form Form.press_submit)
unfolding login_form trim
submitted = next here (click _ Form.press_submit (submit-offered _ refl))

quiet : (c : String) → Quiet Form.busy (quiet_login c)
unfolding Quiet
quiet c = tt

login-IsSingle_example : Exclusive Form.busy form Form.submits (press form Form.press_submit)
login-IsSingle_example =
    login-IsSingle quiet_login quiet null "" "" (some "c") (press form Form.press_submit) submitted

abbrev sample_event : CardEvent
sample_event = card_event row

content-reveals_example :
    Shows (content toggle_expanded true sample_event) (display_text sample_event)
    × OnTest
        (has_raw_behind sample_event)
        (Shows
          (content toggle_expanded true sample_event)
          (format_payload sample_event.raw_payload false))
        Unit
    × ((Shows (content toggle_expanded false sample_event) (display_text sample_event)
          × (has_raw_behind sample_event ≡ false))
        ⊎ ((c : Control) × Offers (content toggle_expanded false sample_event) c
            × (after (card_on false c) false ≡ true)))
content-reveals_example = content-reveals sample_event

abbrev no_length : String → ℕ
no_length s = 0

abbrev stats_turn : Turn Metrics.State
stats_turn = answered 200 ""

fetch_stats-counts_example :
    (exec
        (fetch_stats no_length true)
        (record stats_turn { reply = responded 401 "{}" } ∷ [])
        (world Metrics.initial)
      ≡ finished (ok tt) [] (record {
        ui = record Metrics.initial { active = undefined };
        sent = [] ++ stats_request ∷ [];
      }))
    × (exec
          (fetch_stats no_length true)
          (record stats_turn { reply = responded 401 "[]" } ∷ [])
          (world Metrics.initial)
        ≡ finished (ok tt) [] (record {
          ui = record Metrics.initial { active = num (show (length (items (arr nil)))) };
          sent = [] ++ stats_request ∷ [];
        }))
unfolding prop
fetch_stats-counts_example =
    fetch_stats-counts no_length 401 "{}" "[]" end nil stats_turn [] (world Metrics.initial) refl
      refl refl

abbrev page : Page
page = record {
  base_url = "";
  mail_domain = "";
  copied = "";
  local_date = no_text;
  local_time = no_text;
}

abbrev identity : String → Value
identity id = obj (field "id" (str id) (field "status" (str "active") end))

abbrev urls_stage : Stage UrlsState.State
urls_stage = record { ui = initial null null; running = [] }

identity_row-Offers_again_example :
    Offers
      (identity_row page
        (pressed (identity "b") (pressed (identity "a") urls_stage)).ui.identity_busy_id
        (identity "a"))
      (press_status (prop "id" (identity "a")) "blocked")
    × ((a : Act UrlsState.State Unit) × (b : Act UrlsState.State Unit) × AwaitsReply
          (block_request (identity "a"))
          (change_identity_status (prop "id" (identity "a")) "blocked")
          a
        × AwaitsReply
            (block_request (identity "b"))
            (change_identity_status (prop "id" (identity "b")) "blocked")
            b
        × ((pressed (identity "b") (pressed (identity "a") urls_stage)).running ≡ b ∷ a ∷ []))
unfolding prop strict_eq
identity_row-Offers_again_example =
    identity_row-Offers_again page urls_stage (identity "a") (identity "b") refl refl
