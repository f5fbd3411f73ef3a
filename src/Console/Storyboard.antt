-- ===== src/Console/Storyboard.antt =====
-- The events and listeners of the shell.
use webhook_listener.Prelude.{
  Bool, true, false, not, String, ◌==◌, List, [], ◌∷◌, map, if◌then◌else◌,
}
use webhook_listener.Js.Value.{Value, null, str, prop, truthy, strict_eq, to_text, ◌⧺◌}
use webhook_listener.Js.Dict.{Dict, put, remove}
use webhook_listener.Js.Engine.{Engine}
use webhook_listener.Async.{Act, await, ◌>>=◌, ◌>>◌, catch, finally, settle_both}
use webhook_listener.Async.Steps.{set_state, skip}
use webhook_listener.Api.{api_request, no_options, with_method, rows}
use webhook_listener.Profile.{secret_url, listener_ingress_template}

pub record State : Type 0 where
  pub active_tab : String
  pub copied : String
  pub is_drawer_open : Bool
  pub events : List Value
  pub listeners : List Value
  pub fetching : Bool
  pub active_tag : Value
  pub reclassifying_event_ids : Dict Bool

abbrev pub initial : String → State
initial tab = record {
  active_tab = tab;
  copied = "";
  is_drawer_open = false;
  events = [];
  listeners = [];
  fetching = false;
  active_tag = null;
  reclassifying_event_ids = [];
}

-- The address that the storyboard shows above the events.
unfoldable pub ingress_template : List Value → Value → String → Value
ingress_template [] alias base_url = str (secret_url base_url alias)
ingress_template (l ∷ ls) alias base_url = listener_ingress_template l alias base_url

-- setActiveTag(prev => prev === tag ? null : tag)
unfoldable pub handle_tag_click : Value → State → State
handle_tag_click tag s = record s { active_tag = if strict_eq s.active_tag tag then null else tag }

-- current.map((event) => (event.id === updatedEvent.id ? updatedEvent : event))
unfoldable pub replace_event : Value → List Value → List Value
replace_event updated events =
    map (λ event. if strict_eq (prop "id" event) (prop "id" updated) then updated else event) events

abbrev pub start_reclassify : Value → State → State
start_reclassify id s = record s {
  reclassifying_event_ids = put (to_text id) true s.reclassifying_event_ids;
}

abbrev pub end_reclassify : Value → State → State
end_reclassify id s = record s {
  reclassifying_event_ids = remove (to_text id) s.reclassifying_event_ids;
}

-- The click on a copy button: the clipboard, the label, and the timer that takes the label away.
unfoldable pub copy : String → Act State Unit
copy key = await λ written.
    set_state (λ s. record s { copied = key })
    >> await (λ timer. set_state (λ s. record s { copied = "" }))

module _ ⦃js : Engine⦄ where
  unfoldable pub fetch_listeners : Act State Unit
  fetch_listeners = do
    reply ← api_request "/v1/listeners" no_options
    set_state (λ s. record s { listeners = rows reply })

  abbrev pub events_path : Value → String
  events_path tag =
      if truthy tag
      then "/api/events/by-tag?tag=" ⧺ js.encode (to_text tag) ⧺ "&limit=50"
      else "/api/events"

  unfoldable pub fetch_events : Value → Act State Unit
  fetch_events tag = do
    set_state (λ s. record s { fetching = true })
    finally
        (do
          reply ← api_request (events_path tag) no_options
          set_state (λ s. record s { events = rows reply }))
        (λ s. record s { fetching = false })

  -- The effect on the session, the tab and the tag: both loads run side by side, and their failures
  -- are only logged.
  unfoldable pub load_console : Bool → String → Value → Act State Unit
  unfolding fetch_listeners fetch_events
  load_console is_authenticated tab tag =
      if not is_authenticated
      then skip
      else if tab == "storyboard"
      then settle_both (catch fetch_listeners (λ e. skip)) (catch (fetch_events tag) (λ e. skip))
      else catch fetch_listeners (λ e. skip)

  unfoldable pub refresh_all : Value → Act State Unit
  unfolding fetch_listeners fetch_events
  refresh_all tag = settle_both fetch_listeners (fetch_events tag)

  unfoldable pub reclassify_event : Value → Value → Act State Unit
  unfolding fetch_events replace_event
  reclassify_event tag id = do
    set_state (start_reclassify id)
    finally
        (catch
          (do
            result ← api_request ("/api/events/" ⧺ to_text id ⧺ "/re-run") (with_method "POST")
            (if truthy (prop "id" (prop "event" result))
                then set_state
                    (λ s. record s { events = replace_event (prop "event" result) s.events })
                else fetch_events tag))
          (λ e. skip))
        (end_reclassify id)
