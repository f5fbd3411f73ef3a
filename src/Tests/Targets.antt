-- ===== src/Tests/Targets.antt =====
-- Forms and runs of the integrations tab.
use webhook_listener.Tabs.Integrations.Payload.{
  target_payload-IsPayload, target_payload-form_of_target, IsPayload, IsKept, SendsBack,
}
use webhook_listener.Tabs.Integrations.Saving.{
  persist_target-sends, delete_target-settles, saving, loaded,
}
use webhook_listener.Tests.{sample_engine, row, row_text, answered, world}
use webhook_listener.Prelude.{◌≡◌, refl, true, false, [], ◌∷◌, ◌++◌, if◌then◌else◌}
use webhook_listener.Js.Value.{
  Value, str, obj, end, prop, is_object, truthy, to_text, ◌or◌, strict_eq, field,
}
use webhook_listener.Tabs.Integrations.{
  State, TargetForm, payload_of, target_payload, form_of_target, reset_form, default_target_form,
  target_path, save_method, persist_target, delete_target,
}
use webhook_listener.Js.Text.{trim, drop_start, drop_end}
use webhook_listener.Json.{
  is_blank, safe_json_parse, pretty_json, parse_object_or_throw, target_config_from_record,
  object_from_json_text, target_record_details, parse_json_text,
}
use webhook_listener.Async.{ok, exec, finished}
use webhook_listener.Async.Steps.{trim_value, OnResult, OnTest, Settled}
use webhook_listener.Api.{no_options, with_body, reply_result, fetch_request}

abbrev form : TargetForm
form = record default_target_form { target_key = str "ci" }

abbrev start : State
start = record {
  targets = [];
  secrets = [];
  loading_targets = false;
  saving_target = false;
  notice = "";
  expanded_target_id = str "";
  editing_target_id = str "";
  target_form = form;
}

abbrev payload : Value
payload = payload_of form (obj end) (obj end) (obj end) (obj end)

form_makes : target_payload form ≡ ok payload
unfolding target_payload parse_object_or_throw safe_json_parse is_blank pretty_json trim_value trim
    drop_start drop_end truthy to_text
form_makes = refl

abbrev target : Value
target = obj (field "target_key" (str "ci") end)

target_key : trim_value (prop "target_key" target or str "") ≡ ok "ci"
unfolding trim_value trim drop_start drop_end truthy prop
target_key = refl

refs_plain :
    (is_object (prop "header_secret_refs" (target_record_details target) or obj end) ≡ true)
    × (is_object (prop "header_env_refs" (target_record_details target) or obj end) ≡ true)
unfolding target_record_details object_from_json_text parse_json_text is_blank prop truthy
refs_plain = (refl, refl)

kept :
    IsKept (target_config_from_record target)
    × IsKept (object_from_json_text (prop "schema_json" target))
unfolding target_config_from_record object_from_json_text parse_json_text is_blank prop truthy
    pretty_json trim
kept = ((refl, refl), (refl, refl))

refs-IsKept :
    IsKept (prop "header_secret_refs" (target_record_details target) or obj end)
    × IsKept (prop "header_env_refs" (target_record_details target) or obj end)
unfolding target_record_details object_from_json_text parse_json_text is_blank prop truthy
    pretty_json trim
refs-IsKept = ((refl, refl), (refl, refl))

target_payload-IsPayload_example : IsPayload form payload
target_payload-IsPayload_example = target_payload-IsPayload form payload form_makes

target_payload-form_of_target_example :
    (sent : Value) × (target_payload (form_of_target target) ≡ ok sent) × SendsBack target sent
target_payload-form_of_target_example =
    target_payload-form_of_target target "ci" target_key refl refs_plain.0 refs_plain.1 kept.0
      kept.1 refs-IsKept.0 refs-IsKept.1

persist_target-sends_example :
    let save =
      fetch_request
        (target_path (str ""))
        (with_body (save_method (str "")) (sample_engine.stringify payload)) in
    OnResult
      (reply_result (answered {S = State} 200 row_text).reply)
      (λ _.
        Settled
          (λ w'.
            (w'.ui.target_form ≡ default_target_form)
            × (w'.ui.editing_target_id ≡ str "")
            × (w'.ui.saving_target ≡ false)
            × (w'.sent
                ≡ ((world start).sent ++ save ∷ [])
                  ++ fetch_request "/api/forward-targets" no_options ∷ []))
          (exec
            (persist_target form (str ""))
            ((answered {S = State} 200 row_text) ∷ (answered {S = State} 200 "[]") ∷ [])
            (world start)))
      (λ e.
        exec (persist_target form (str "")) ((answered {S = State} 200 row_text) ∷ []) (world start)
        ≡ finished (ok tt) [] (record {
          ui = record ((answered {S = State} 200 row_text).meanwhile (saving (world start).ui)) {
            notice = e;
            saving_target = false;
          };
          sent = (world start).sent ++ save ∷ [];
        }))
persist_target-sends_example =
    persist_target-sends form (str "") payload (answered 200 row_text) (answered 200 "[]") []
      (world start) form_makes

delete_target-settles_example :
    OnTest
      (answered {S = State} 200 "").answer
      (OnResult
        (reply_result (answered {S = State} 200 row_text).reply)
        (λ _.
          Settled
            (λ w'.
              w'.ui
              ≡ record (loaded (reply_result (answered {S = State} 200 "[]").reply) (
                  (answered {S = State} 200 "[]").meanwhile
                    (record (if strict_eq (str "7") (prop "id" row)
                      then reset_form
                          ((answered {S = State} 200 row_text).meanwhile (world start).ui)
                      else (answered {S = State} 200 row_text).meanwhile (world start).ui) {
                        loading_targets = true;
                      }))) { notice = "Integration deleted." })
            (exec
              (delete_target row (str "7"))
              ((answered {S = State} 200 "")
                ∷ (answered {S = State} 200 row_text)
                ∷ (answered {S = State} 200 "[]")
                ∷ [])
              (world start)))
        (λ e.
          Settled
            (λ w'. w'.ui ≡ record ((answered {S = State} 200 row_text).meanwhile (world start).ui) {
              notice = e;
            })
            (exec
              (delete_target row (str "7"))
              ((answered {S = State} 200 "") ∷ (answered {S = State} 200 row_text) ∷ [])
              (world start))))
      (exec (delete_target row (str "7")) ((answered {S = State} 200 "") ∷ []) (world start)
        ≡ finished (ok tt) [] (world start))
delete_target-settles_example =
    delete_target-settles row (str "7") (answered 200 "") (answered 200 row_text)
      (answered 200 "[]") [] (world start)
