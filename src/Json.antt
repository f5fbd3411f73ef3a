-- ===== src/Json.antt =====
-- web/src/App.jsx: the helpers that read JSON texts from rows and forms.
pub mod Laws
use webhook_listener.Prelude.{
  ◌≡◌, Bool, true, false, not, ◌||◌, ◌&&◌, List, [], ◌∷◌, String, ◌==◌, Option, none, some,
  if◌then◌else◌,
}
use webhook_listener.Js.Value.{
  Value, undefined, null, str, obj, arr, nil, end, truthy, nullish, prop, is_array, is_object,
  to_text, ◌⧺◌,
}
use webhook_listener.Js.Text.{trim}
use webhook_listener.Js.Engine.{Engine}
use webhook_listener.Async.{Result, ok, err}

abbrev pub parsed_or : Option Value → Value → Value
parsed_or none fallback = fallback
parsed_or (some v) fallback = v

-- typeof text !== 'string' || text.trim() === ''
unfoldable pub is_blank : Value → Bool
unfolding trim
is_blank (str s) = trim s == ""
is_blank v = true

module _ ⦃js : Engine⦄ where
  unfoldable pub safe_json_parse : Value → Value → Value
  safe_json_parse text fallback =
      if truthy text then parsed_or (js.parse (to_text text)) fallback else fallback

  unfoldable pub pretty_json : Value → String
  pretty_json value = js.pretty value

  unfoldable pub parse_json_text : Value → Value → Value
  parse_json_text text fallback =
      if is_blank text then fallback else nullish (safe_json_parse text fallback) fallback

  unfoldable pub array_from_json_text : Value → Value
  unfolding parse_json_text
  array_from_json_text text =
      let parsed = parse_json_text text (arr nil) in if is_array parsed then parsed else arr nil

  unfoldable pub object_from_json_text : Value → Value
  unfolding parse_json_text
  object_from_json_text text =
      let parsed = parse_json_text text (obj end) in if is_object parsed then parsed else obj end

  unfoldable pub target_config_from_record : Value → Value
  target_config_from_record target =
      let parsed = object_from_json_text (prop "config_json" target) in
      let config = prop "config" parsed in if is_object config then config else parsed

  unfoldable pub target_record_details : Value → Value
  target_record_details target = object_from_json_text (prop "config_json" target)

  unfoldable pub parse_object_or_throw : Value → String → Result Value
  parse_object_or_throw text label =
      if is_blank text
      then ok (obj end)
      else let parsed = safe_json_parse text undefined in
        if is_object parsed then ok parsed else err (label ⧺ " must be valid JSON object")

  abbrev shown : Value → String
  shown candidate =
      let parsed = safe_json_parse candidate null in
      if truthy parsed then pretty_json parsed else trim (to_text candidate)

  -- The loop of `payloadPreview`.
  unfoldable pub first_shown : List Value → String
  first_shown [] = ""
  first_shown (candidate ∷ rest) = if is_blank candidate then first_shown rest else shown candidate

  unfoldable pub payload_preview : Value → String
  unfolding first_shown
  payload_preview event =
      first_shown (
        prop "processed_text" event
        ∷ prop "raw_payload_json" event
        ∷ prop "payload_json" event
        ∷ [])
