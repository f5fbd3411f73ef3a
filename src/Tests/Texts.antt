-- ===== src/Tests/Texts.antt =====
-- Profiles, texts of rows and forms, headers and cards.
use webhook_listener.Profile.Laws.{normalize_app_profile-IsNormal, IsNormal, url-normalized}
use webhook_listener.Json.Laws.{target_records-is_object}
use webhook_listener.Api.Laws.{headers-fetch_request}
use webhook_listener.Card.Lines.{split_lines-truncate_lines}
use webhook_listener.Tests.{sample_engine, row}
use webhook_listener.Prelude.{
  ◌≡◌, refl, ◌≢◌, true, String, eq_iff, arith, if◌then◌else◌, ◌∷◌, none, some, [], ◌++◌, length,
  take, leb,
}
use webhook_listener.Js.Value.{Value, str, prop, truthy, obj, end, is_object}
use webhook_listener.Js.Text.{strip_slashes, split_lines, drop_end}
use webhook_listener.Async.{ok}
use webhook_listener.Profile.{normalize_app_profile, normalized, replace_slashes}
use webhook_listener.Json.{target_config_from_record, target_record_details}
use webhook_listener.Js.Dict.{get}
use webhook_listener.Async.Steps.{OnOption}
use webhook_listener.Api.{has_body, fetch_request, with_body}
use webhook_listener.Card.{truncate_lines, CardEvent, card_event}

abbrev q : Value
q = normalized (obj end) "https://app.agenthook.store"

normal_q : normalize_app_profile (obj end) ≡ ok q
unfolding normalize_app_profile replace_slashes strip_slashes drop_end truthy prop
normal_q = refl

https_filled : ◌≢◌ {A = String} "https://app.agenthook.store" ""
https_filled = ground (arith, eq_iff "https://app.agenthook.store" "")

q_url : prop "public_base_url" q ≢ str ""
q_url = ground (arith, url-normalized (obj end) "https://app.agenthook.store", https_filled)

abbrev event : CardEvent
event = card_event row

normalize_app_profile-IsNormal_example : IsNormal q
normalize_app_profile-IsNormal_example = normalize_app_profile-IsNormal (obj end) q normal_q

target_records-is_object_example :
    (is_object (target_config_from_record row) ≡ true)
    × (is_object (target_record_details row) ≡ true)
target_records-is_object_example = target_records-is_object row

headers-fetch_request_example :
    OnOption
      (with_body "POST" "{}").headers
      ((get "Accept" (fetch_request "/api/events" (with_body "POST" "{}")).headers
          ≡ some "application/json")
        × (get "Content-Type" (fetch_request "/api/events" (with_body "POST" "{}")).headers
            ≡ (if has_body (with_body "POST" "{}").body then some "application/json" else none)))
      (λ h. (fetch_request "/api/events" (with_body "POST" "{}")).headers ≡ h)
headers-fetch_request_example = headers-fetch_request "/api/events" (with_body "POST" "{}")

split_lines-truncate_lines_example : split_lines (truncate_lines 1 "a\nb").text ≡ (
    if leb (length (split_lines "a\nb")) 1
    then split_lines "a\nb"
    else take 1 (split_lines "a\nb") ++ "..." ∷ [])
split_lines-truncate_lines_example = split_lines-truncate_lines 1 "a\nb" (omega arith)
