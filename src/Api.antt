-- ===== src/Api.antt =====
-- web/src/App.jsx: `apiRequest`, through which every tab speaks to the server.
pub mod Laws
pub mod Quiet
use webhook_listener.Prelude.{
  ℕ, Bool, true, false, not, String, ◌==◌, Option, none, some, if◌then◌else◌, [], ◌∷◌, List,
}
use webhook_listener.Js.Value.{
  Value, null, str, ◌or◌, prop, to_text, ◌⧺◌, is_array, items, arr, of_list,
}
use webhook_listener.Js.Dict.{Dict, put}
use webhook_listener.Js.Decimal.{show}
use webhook_listener.Js.Engine.{Engine}
use webhook_listener.Json.{safe_json_parse}
use webhook_listener.Async.Steps.{from_result}
use webhook_listener.Async.{
  Act, pure, throw, send, await, Request, Reply, failed, responded, is_ok, Result, ok, err,
}

pub record Options : Type 0 where
  pub method : Option String
  pub headers : Option (Dict String)
  pub body : Option String

abbrev pub no_options : Options
no_options = record { method = none; headers = none; body = none }

abbrev pub with_method : String → Options
with_method m = record { method = some m; headers = none; body = none }

abbrev pub with_body : String → String → Options
with_body m b = record { method = some m; headers = none; body = some b }

-- options.body, tested for truth
abbrev pub has_body : Option String → Bool
has_body none = false
has_body (some b) = not (b == "")

-- { ...base, ...over }
abbrev pub spread : Dict String → Dict String → Dict String
spread base [] = base
spread base ((k, v) ∷ over) = spread (put k v base) over

-- The headers that the call builds from the options.
unfoldable pub merged_headers : Options → Dict String
unfolding put
merged_headers options =
    let accept = ("Accept", "application/json") ∷ [] in
    let typed =
      if has_body options.body then put "Content-Type" "application/json" accept else accept in
    elim options.headers [ none ↦ typed | some h ↦ spread typed h ]

-- `...options` stands behind `headers`, so headers of the options replace the merged ones.
unfoldable pub fetch_request : String → Options → Request
unfolding merged_headers
fetch_request path options = record {
  path = path;
  method = elim options.method [ none ↦ "GET" | some m ↦ m ];
  headers = elim options.headers [ none ↦ merged_headers options | some h ↦ h ];
  credentials = "include";
  body = options.body;
}

-- Array.isArray(data) ? data : []
abbrev pub rows : Value → List Value
rows reply = items reply

module _ ⦃js : Engine⦄ where
  abbrev error_message : Value → ℕ → String → String
  error_message parsed status text =
      to_text (prop "error" parsed or str text or str ("Request failed with status " ⧺ show status))

  unfoldable pub reply_result : Reply → Result Value
  reply_result (failed message) = err message
  reply_result (responded status text) =
      let parsed = safe_json_parse (str text) null in
      if is_ok status then ok parsed else err (error_message parsed status text)

  unfoldable pub api_request : {S : Type 0} → String → Options → Act S Value
  api_request path options =
      send (fetch_request path options) (await (λ reply. from_result (reply_result reply)))
