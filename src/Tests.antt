-- ===== src/Tests.antt =====
-- An engine, rows and turns for the examples. The engine knows the few texts that they use.
pub mod Session
pub mod Edge
pub mod Secrets
pub mod Tokens
pub mod Targets
pub mod Skill
pub mod Feed
pub mod Listeners
pub mod Texts
pub mod Panels
pub mod Pages
pub mod Tools
pub mod Storyboard
use webhook_listener.Prelude.{
  false, true, ℕ, ◌≡◌, refl, String, ◌==◌, Option, none, some, [], ◌∷◌, if◌then◌else◌,
}
use webhook_listener.Js.Value.{
  Value, null, str, arr, of_list, obj, nil, field, end, truthy, to_text,
}
use webhook_listener.Js.Engine.{Engine}
use webhook_listener.Json.{safe_json_parse}
use webhook_listener.Async.{Turn, World, Reply, failed, responded, ok}
use webhook_listener.Api.{reply_result}

abbrev pub row_text : String
row_text =
    "{\"id\":\"7\",\"event\":{\"id\":\"7\"},\"provider\":\"github\",\"listener_id\":\"repo\",\"skill_key\":\"ci\"}"

abbrev pub rows_text : String
rows_text = "[row]"

abbrev pub row : Value
row = obj (
    field "id" (str "7") (
      field "event" (obj (field "id" (str "7") end)) (
        field "provider" (str "github")
          (field "listener_id" (str "repo") (field "skill_key" (str "ci") end)))))

instance abbrev pub sample_engine : Engine
sample_engine = record {
  parse = λ s.
      if s == "{}"
      then some (obj end)
      else if s == "[]"
      then some (arr nil)
      else if s == row_text
      then some row
      else if s == rows_text
      then some (arr (of_list (row ∷ [])))
      else none;
  stringify = λ v. "{}";
  pretty = λ v. "{}";
  encode = λ s. s;
  query = λ pairs. "";
  number = λ v. "100";
  lower = λ s. s;
  upper = λ s. s;
  type_error = "x is not a function";
  syntax_error = "Unexpected token";
}

abbrev pub answered : {S : Type 0} → ℕ → String → Turn S
answered status text = record { reply = responded status text; answer = true; meanwhile = λ s. s }

abbrev pub offline : {S : Type 0} → Turn S
offline = record { reply = failed "Failed to fetch"; answer = false; meanwhile = λ s. s }

abbrev pub world : {S : Type 0} → S → World S
world s = record { ui = s; sent = [] }

pub row_reply : reply_result (responded 200 row_text) ≡ ok row
unfolding reply_result safe_json_parse truthy to_text
row_reply = refl

pub list_reply : reply_result (responded 200 "[]") ≡ ok (arr nil)
unfolding reply_result safe_json_parse truthy to_text
list_reply = refl
