-- ===== src/Card.antt =====
-- web/src/components/StoryboardCard.jsx: what the card of an event shows.
pub mod Lines
pub mod Display
pub mod Panel
pub mod Reveal
use webhook_listener.Prelude.{
  ℕ, Bool, true, false, not, ◌||◌, ◌&&◌, String, ◌==◌, List, [], ◌∷◌, Option, none, some, any,
  length, leb, take, if◌then◌else◌,
}
use webhook_listener.Js.Value.{
  Value, undefined, null, bool, num, str, arr, obj, nil, cons, end, field, truthy, prop, items,
  to_text, is_text, ◌or◌, ◌⧺◌,
}
use webhook_listener.Js.Text.{trim, split_lines, join_lines}
use webhook_listener.Js.Engine.{Engine}
use webhook_listener.Json.{safe_json_parse, pretty_json}
use webhook_listener.Async.{Result, ok, err}

-- The event as `App` hands it to the card.
pub record CardEvent : Type 0 where
  pub processed_text : Value
  pub raw_payload : Value
  pub tags_json : Value
  pub type_key : Value
  pub status : Value

-- What `App` makes of a row of events.
unfoldable pub card_event : Value → CardEvent
card_event event = record {
  processed_text = prop "processed_text" event or str "";
  raw_payload = prop "raw_payload_json" event or prop "payload_json" event or str "";
  tags_json = prop "tags_json" event or str "[]";
  type_key = prop "type_key" event or str "webhook";
  status = prop "status" event;
}

abbrev pub is_null : Value → Bool
is_null null = true
is_null v = false

unfoldable pub is_structurally_empty : Value → Bool
is_structurally_empty undefined = true
is_structurally_empty null = true
is_structurally_empty (str s) = trim s == ""
is_structurally_empty (arr nil) = true
is_structurally_empty (obj end) = true
is_structurally_empty v = false

-- text.split('\n') has at most `max` lines, or the first `max` are kept and marked.
pub record Truncated : Type 0 where
  pub text : String
  pub is_truncated : Bool

unfoldable pub truncate_lines : ℕ → String → Truncated
truncate_lines max text =
    if text == ""
    then record { text = ""; is_truncated = false }
    else if leb (length (split_lines text)) max
    then record { text = text; is_truncated = false }
    else record {
      text = join_lines (take max (split_lines text)) ⧺ String.◌∷◌ "\n" "...";
      is_truncated = true;
    }

-- a || b on texts
abbrev pub first_text : String → String → String
first_text a b = if a == "" then b else a

module _ ⦃js : Engine⦄ where
  abbrev shown_text : Bool → String → String
  shown_text treat_empty raw =
      let parsed = safe_json_parse (str raw) null in
      if is_null parsed
      then trim raw
      else if treat_empty && is_structurally_empty parsed
      then ""
      else pretty_json parsed

  unfoldable pub format_payload : Value → Bool → String
  format_payload (str raw) treat_empty =
      if trim raw == "" || trim raw == "null" then "" else shown_text treat_empty raw
  format_payload raw treat_empty = ""

  unfoldable pub display_text : CardEvent → String
  unfolding format_payload
  display_text event = first_text (format_payload event.processed_text true) (
      first_text (format_payload event.raw_payload false)
        ("Received " ⧺ to_text (event.type_key or str "webhook") ⧺ " payload."))

  -- The label over the text, and the mark beside it.
  unfoldable pub display_label : CardEvent → String
  display_label event =
      if format_payload event.processed_text true == "" then "Payload" else "Processed Summary"

  unfoldable pub display_source : CardEvent → String
  display_source event =
      if format_payload event.processed_text true == "" then "Raw" else "Processed"

  -- Whether a raw payload other than the text stands behind it.
  unfoldable pub has_raw_behind : CardEvent → Bool
  has_raw_behind event =
      let processed = format_payload event.processed_text true in
      let raw = format_payload event.raw_payload false in
      not (processed == "") && not (raw == "") && not (raw == processed)

  abbrev is_marketing_tag : Value → Bool
  is_marketing_tag (str t) =
      any (λ m. js.lower t == m) ("marketing" ∷ "promotion" ∷ "newsletter" ∷ [])
  is_marketing_tag t = false

  -- safeJSONParse(event.tagsJson) || [], on which `some` is called: only arrays have it.
  unfoldable pub is_marketing : CardEvent → Result Bool
  is_marketing event = elim (safe_json_parse event.tags_json null or arr nil) [
    | arr tags ↦ ok (any is_marketing_tag (items (arr tags)))
    | _ ↦ err js.type_error
  ]

-- configs[status] || configs.ACTIVE, by the name of the config
unfoldable pub badge : Value → String
badge status =
    if is_text status "SHADOW"
    then "SHADOW"
    else if is_text status "LEARNING"
    then "LEARNING"
    else if is_text status "processed"
    then "processed"
    else "ACTIVE"
