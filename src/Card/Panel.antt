-- ===== src/Card/Panel.antt =====
-- web/src/components/StoryboardCard.jsx: what the card of an event shows.
use webhook_listener.Async.Steps.{skip, set_state, map_result}
use webhook_listener.Async.{Act, Result}
use webhook_listener.Card.{
  ℕ, CardEvent, display_text, display_label, display_source, has_raw_behind, format_payload,
  is_marketing, truncate_lines, card_event,
}
use webhook_listener.Prelude.{Bool, false, not, ◌&&◌, String, List, [], ◌∷◌, length, if◌then◌else◌}
use webhook_listener.Js.Value.{Value, null, str, arr, nil, prop, truthy, items, to_text, ◌or◌, ◌⧺◌}
use webhook_listener.Js.Decimal.{show}
use webhook_listener.Js.Text.{split_lines}
use webhook_listener.Js.Engine.{Engine}
use webhook_listener.Json.{safe_json_parse}
use webhook_listener.View.{View, ◌&◌, text, value, button, shown_if, each, is_nil}

-- What the card gets beside the texts of the event.
pub record CardProps : Type 0 where
  pub event : CardEvent
  pub id : Value
  pub time : String
  pub actions : List Value
  pub reclassifying : Bool

-- What `App` hands to the card of a row. `local_clock` is the time of day in the locale of the browser.
unfoldable pub card_props : (Value → String) → (reclassifying : Bool) → Value → CardProps
unfolding card_event
card_props local_clock reclassifying event = record {
  event = card_event event;
  id = prop "id" event;
  time = local_clock (prop "created_at" event);
  actions =
      (if truthy (prop "action_selected" event) then prop "action_selected" event else str "LOGGED")
      ∷ [];
  reclassifying = reclassifying;
}

-- The controls of a card. Whether it is expanded is its own state; tags and reclassification are
-- handed to the console, which has their effects.
pub data Control : Type 0 where
  toggle_expanded : Control
  choose_tag : Value → Control
  choose_reclassify : Value → Control

-- onClick={() => setExpanded(!expanded)}
unfoldable pub card_on : (expanded : Bool) → Control → Act Bool Unit
card_on expanded toggle_expanded = set_state (λ e. not expanded)
card_on expanded (choose_tag tag) = skip
card_on expanded (choose_reclassify id) = skip

abbrev pub max_lines : ℕ
max_lines = 35

module _ ⦃js : Engine⦄ {M : Type 0} (toggle : M) where
  unfoldable pub toggle_button : Bool → CardEvent → View M
  toggle_button expanded event =
      let cut = (truncate_lines max_lines (display_text event)).is_truncated in
      let lines = show (length (split_lines (display_text event))) in
      shown_if cut
        (button (if expanded then "Show less" else "Show full (" ⧺ lines ⧺ " lines)") false toggle)
      & shown_if (not cut && has_raw_behind event)
          (button (if expanded then "Hide raw payload" else "Show raw payload") false toggle)

  unfoldable pub content : Bool → CardEvent → View M
  unfolding toggle_button
  content expanded event =
      text (display_label event)
      & text (display_source event)
      & text (
          if expanded
          then display_text event
          else (truncate_lines max_lines (display_text event)).text)
      & toggle_button expanded event
      & shown_if (expanded && has_raw_behind event)
          (text "Raw Payload" & text (format_payload event.raw_payload false))

module _ ⦃js : Engine⦄ {M : Type 0} (toggle : M) (on_tag on_reclassify : Value → M) where
  -- (status || 'ACTIVE').toUpperCase()
  abbrev badge_text : Value → String
  badge_text status = js.upper (to_text (status or str "ACTIVE"))

  abbrev pub tags_of : CardEvent → List Value
  tags_of event = items (safe_json_parse event.tags_json null or arr nil)

  -- TagPill
  abbrev pub tag_pill : Value → View M
  tag_pill tag = value tag & button "" false (on_tag tag)

  unfoldable pub card_body : (marketing expanded : Bool) → CardProps → View M
  unfolding content
  card_body marketing expanded p =
      text p.time
      & shown_if marketing (text "MARKETING")
      & text (badge_text p.event.status)
      & content toggle expanded p.event
      & shown_if (not (is_nil (tags_of p.event))) (each (tags_of p.event) tag_pill)
      & button (if p.reclassifying then "RECLASSIFYING" else "RECLASSIFY") p.reclassifying
          (on_reclassify p.id)
      & each p.actions (λ action. value action)

  -- The render throws where the tags are no array.
  unfoldable pub card_view : Bool → CardProps → Result (View M)
  unfolding card_body
  card_view expanded p =
      map_result (is_marketing p.event) (λ marketing. card_body marketing expanded p)
