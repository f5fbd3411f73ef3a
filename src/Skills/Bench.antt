-- ===== src/Skills/Bench.antt =====
-- The test bench of the resolver.
use webhook_listener.Prelude.{true, false, not, String, [], ◌∷◌, some, if◌then◌else◌}
use webhook_listener.Js.Value.{Value, str, obj, end, field, truthy, to_text, ◌⧺◌}
use webhook_listener.Js.Engine.{Engine}
use webhook_listener.Json.{pretty_json}
use webhook_listener.Async.{Act, ◌>>=◌, ◌>>◌, catch, finally}
use webhook_listener.Async.Steps.{set_state, skip}
use webhook_listener.Api.{Options, api_request}
use webhook_listener.Skills.State.{State}

-- { method: 'POST', headers: { 'Content-Type': 'application/json' }, body }
abbrev pub json_post : String → Options
json_post body = record {
  method = some "POST";
  headers = some (("Content-Type", "application/json") ∷ []);
  body = some body;
}

module _ ⦃js : Engine⦄ where
  abbrev error_json : String → String
  error_json e = pretty_json (obj (field "error" (str e) end))

  -- `payload` is the text that the closure captured.
  unfoldable pub run_classify : String → Act State Unit
  run_classify payload = do
    set_state (λ s. record s { test_busy = true })
    set_state (λ s. record s { classify_result = "" })
    finally
        (catch
          (do
            result ← api_request "/api/resolver/classify" (json_post payload)
            set_state (λ s. record s { classify_result = pretty_json result }))
          (λ e. set_state (λ s. record s { classify_result = error_json e })))
        (λ s. record s { test_busy = false })

  unfoldable pub run_transform : Value → String → Act State Unit
  run_transform key payload = if not (truthy key) then skip else do
    set_state (λ s. record s { test_busy = true })
    set_state (λ s. record s { transform_result = "" })
    finally
        (catch
          (do
            result ←
                api_request ("/api/resolver/transform?type_key=" ⧺ js.encode (to_text key))
                  (json_post payload)
            set_state (λ s. record s { transform_result = pretty_json result }))
          (λ e. set_state (λ s. record s { transform_result = error_json e })))
        (λ s. record s { test_busy = false })
