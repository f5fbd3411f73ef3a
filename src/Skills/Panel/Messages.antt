-- ===== src/Skills/Panel/Messages.antt =====
-- web/src/App.jsx, `SkillsTab`: the recent messages, and the test bench.
use webhook_listener.Skills.Panel.Forms.{
  press_transform, type_transform, press_classify, press_rerun, type_classify, toggle_all,
  toggle_event, Event,
}
use webhook_listener.Prelude.{ℕ, not, ◌&&◌, ◌||◌, String, ◌==◌, length, ltb, nat_eq, if◌then◌else◌}
use webhook_listener.Js.Value.{Value, str, prop, truthy, to_text, ◌or◌, ◌⧺◌}
use webhook_listener.Js.Decimal.{show}
use webhook_listener.Js.Engine.{Engine}
use webhook_listener.Json.{payload_preview}
use webhook_listener.View.{View, nothing, ◌&◌, text, button, checkbox, shown_if, each, is_nil}
use webhook_listener.View.Parts.{panel, form_field, text_area, inline_notice, status_badge}
use webhook_listener.Skills.State.{State}
use webhook_listener.Skills.Events.{is_selected, selected_visible}

module _ ⦃js : Engine⦄ (local_time : Value → String) where
  -- payloadPreview(event) || `Event ${event.id}`
  unfoldable pub message_text : Value → String
  message_text event =
      let preview = payload_preview event in
      if preview == "" then "Event " ⧺ to_text (prop "id" event) else preview

  unfoldable pub message_row : State → Value → View Event
  unfolding message_text is_selected
  message_row s event =
      checkbox "" (is_selected s.selected_event_ids event) (toggle_event (prop "id" event))
      & text (local_time (prop "created_at" event))
      & status_badge (prop "status" event or str "ACTIVE")
      & text ("Action: " ⧺ to_text (prop "action_selected" event or str "unknown"))
      & text (message_text event)

  abbrev pub chosen_count : State → ℕ
  chosen_count s = length (selected_visible s.selected_event_ids s.recent_events)

  unfoldable pub messages_panel : State → View Event
  unfolding message_row selected_visible
  messages_panel s =
      panel "Existing Messages"
        "Select one or more recent messages for this listener and reclassify them with the latest skill rules."
        nothing
        (shown_if (not (s.rerun_notice == "")) (inline_notice s.rerun_notice)
          & shown_if (not (is_nil s.recent_events)) (
              checkbox "Select all visible"
                (ltb 0 (length s.recent_events) && nat_eq (chosen_count s) (length s.recent_events))
                toggle_all
              & button
                  (if s.rerun_busy
                    then "Reclassifying..."
                    else "Reclassify Selected (" ⧺ show (chosen_count s) ⧺ ")")
                  (s.rerun_busy || nat_eq (chosen_count s) 0) press_rerun)
          & each s.recent_events (message_row s)
          & shown_if (is_nil s.recent_events && not s.loading_recent_events)
              (text "No recent messages found for this listener yet."))

unfoldable pub bench_panel : State → View Event
bench_panel s =
    panel "Test Skills"
      "Dry-run classification and transformation with a sample payload before wiring the listener into production traffic."
      nothing
      (form_field "Classifier Payload" (text_area s.classify_payload type_classify)
        & button (if s.test_busy then "RUNNING..." else "RUN CLASSIFY DRY-RUN") s.test_busy
            press_classify
        & shown_if (not (s.classify_result == "")) (text s.classify_result)
        & form_field "Transform Payload" (text_area s.transform_payload type_transform)
        & button (if s.test_busy then "RUNNING..." else "RUN TRANSFORM DRY-RUN")
            (s.test_busy || not (truthy s.selected_type_key)) press_transform
        & shown_if (not (s.transform_result == "")) (text s.transform_result))
