-- ===== src/Skills/Events.antt =====
-- Selecting recent events, and running them through the resolver again.
use webhook_listener.Prelude.{
  Bool, true, false, not, String, List, [], ◌∷◌, map, filter, length, nat_eq, if◌then◌else◌,
}
use webhook_listener.Js.Value.{Value, prop, to_text, ◌⧺◌}
use webhook_listener.Js.Decimal.{show}
use webhook_listener.Js.Dict.{Dict, get_or, put}
use webhook_listener.Js.Engine.{Engine}
use webhook_listener.Async.{Act, ◌>>=◌, ◌>>◌, catch, finally, gather}
use webhook_listener.Async.Steps.{set_state, skip}
use webhook_listener.Api.{api_request, no_options, with_method, rows}
use webhook_listener.Skills.State.{State}
use webhook_listener.Skills.Effects.{events_of}

-- The key under which an event's selection is kept.
abbrev pub event_key : Value → String
event_key event = to_text (prop "id" event)

-- selectedEventIDs[event.id], tested for truth
unfoldable pub is_selected : Dict Bool → Value → Bool
is_selected selected event = get_or (event_key event) false selected

-- visibleEvents.filter((event) => selectedEventIDs[event.id]).map((event) => event.id)
unfoldable pub selected_visible : Dict Bool → List Value → List Value
unfolding is_selected
selected_visible selected events = map (prop "id") (filter (is_selected selected) events)

unfoldable pub toggle_event_selection : Value → State → State
toggle_event_selection id s = record s {
  selected_event_ids =
      put (to_text id) (not (get_or (to_text id) false s.selected_event_ids)) s.selected_event_ids;
}

-- The loop of `toggleAllVisibleEvents`.
unfoldable pub select_all : Bool → List Value → Dict Bool → Dict Bool
select_all value [] selected = selected
select_all value (event ∷ events) selected =
    select_all value events (put (event_key event) value selected)

-- `captured` is the state of the render whose button is clicked.
unfoldable pub toggle_all_visible_events : State → State → State
unfolding select_all selected_visible
toggle_all_visible_events captured s =
    let chosen = selected_visible captured.selected_event_ids captured.recent_events in
    let value = not (nat_eq (length chosen) (length captured.recent_events)) in
    record s { selected_event_ids = select_all value captured.recent_events s.selected_event_ids }

module _ ⦃js : Engine⦄ where
  unfoldable pub rerun_one : Value → Act State Value
  rerun_one id = api_request ("/api/events/" ⧺ to_text id ⧺ "/re-run") (with_method "POST")

  unfoldable pub rerun_events : Value → List Value → Act State Unit
  unfolding rerun_one
  rerun_events selected ids = do
    set_state (λ s. record s { rerun_busy = true })
    set_state (λ s. record s { rerun_notice = "" })
    finally
        (catch
          (do
            gather (map rerun_one ids)
            refreshed ← api_request "/api/events" no_options
            set_state (λ s. record s {
              recent_events = events_of selected (rows refreshed);
              selected_event_ids = [];
              rerun_notice =
                  "Reclassified "
                  ⧺ show (length ids)
                  ⧺ " message"
                  ⧺ (if nat_eq (length ids) 1 then "" else "s")
                  ⧺ ".";
            }))
          (λ e. set_state (λ s. record s { rerun_notice = e })))
        (λ s. record s { rerun_busy = false })

  unfoldable pub rerun_selected_events : State → Act State Unit
  unfolding rerun_events selected_visible
  rerun_selected_events captured =
      let ids = selected_visible captured.selected_event_ids captured.recent_events in
      if nat_eq (length ids) 0 then skip else rerun_events captured.selected_type_key ids
