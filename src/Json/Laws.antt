-- ===== src/Json/Laws.antt =====
-- What the JSON helpers of web/src/App.jsx return.
use webhook_listener.Prelude.{◌≡◌, ◌↔◌, true, false, String, arith, if◌then◌else◌}
use webhook_listener.Js.Value.{Value, undefined, obj, arr, nil, end, is_array, is_object, prop, ◌⧺◌}
use webhook_listener.Js.Engine.{Engine}
use webhook_listener.Async.{ok, err}
use webhook_listener.Json.{
  is_blank, safe_json_parse, array_from_json_text, object_from_json_text, parse_object_or_throw,
  target_config_from_record, target_record_details,
}

if-is_array : (v : Value) → is_array (if is_array v then v else arr nil) ≡ true
if-is_array v = ground arith

if-is_object : (v : Value) → is_object (if is_object v then v else obj end) ≡ true
if-is_object v = ground arith

module _ ⦃js : Engine⦄ where
  -- Whatever the text, the helpers for rows return an array, and a plain object.
  pub from_json_text-kind :
      (text : Value)
      → (is_array (array_from_json_text text) ≡ true)
        × (is_object (object_from_json_text text) ≡ true)
  unfolding array_from_json_text object_from_json_text
  from_json_text-kind text = (if-is_array _, if-is_object _)

  -- The config and the details of a target are plain objects, whatever the row holds.
  pub target_records-is_object :
      (target : Value)
      → (is_object (target_config_from_record target) ≡ true)
        × (is_object (target_record_details target) ≡ true)
  unfolding target_config_from_record target_record_details
  target_records-is_object target =
      ground (arith, (from_json_text-kind (prop "config_json" target)).1)

  -- A form's JSON field is refused exactly when it is not blank and does not parse to a plain
  -- object; then the message names the field.
  pub parse_object_or_throw-err_iff :
      (text : Value) (label message : String)
      → (parse_object_or_throw text label ≡ err message) ↔ (
          (is_blank text ≡ false)
          × (is_object (safe_json_parse text undefined) ≡ false)
          × (message ≡ label ⧺ " must be valid JSON object"))
  unfolding parse_object_or_throw
  parse_object_or_throw-err_iff text label message = grind arith

  pub parse_object_or_throw-is_object :
      (text : Value) (label : String) (v : Value)
      → parse_object_or_throw text label ≡ ok v
      → is_object v ≡ true
  unfolding parse_object_or_throw
  parse_object_or_throw-is_object text label v h = ground arith
