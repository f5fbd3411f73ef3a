-- ===== src/Skills/Rerun.antt =====
-- web/src/App.jsx, `rerunSelectedEvents`: the requests that a click sends.
use webhook_listener.Prelude.{
  ◌≡◌, refl, true, false, List, [], ◌∷◌, ◌++◌, map, length, nat_eq, arith,
}
use webhook_listener.Js.Value.{Value, to_text, ◌⧺◌}
use webhook_listener.Js.Engine.{Engine}
use webhook_listener.Async.{Act, Request, Reply, ◌>>=◌, World, exec, waiting}
use webhook_listener.Async.Laws.{exec-bind, exec-catch, exec-finally}
use webhook_listener.Async.Waits.{exec-gather, sent-add_all}
use webhook_listener.Async.Steps.{from_result}
use webhook_listener.Api.{api_request, with_method, reply_result, fetch_request}
use webhook_listener.Skills.State.{State}
use webhook_listener.Skills.Events.{
  selected_visible, rerun_events, rerun_one, rerun_selected_events,
}

length-nonzero : (id : Value) (ids : List Value) → nat_eq (length (id ∷ ids)) 0 ≡ false
length-nonzero id ids = ground arith

-- The request that runs the event again.
abbrev pub rerun_request : Value → Request
rerun_request id = fetch_request ("/api/events/" ⧺ to_text id ⧺ "/re-run") (with_method "POST")

module _ ⦃js : Engine⦄ where
  abbrev replied : Value → Reply → Act State Value
  replied id x = from_result (reply_result x)

  rerun_events-sends_all :
      (key id : Value) (ids : List Value) (w : World State)
      → exec (rerun_events key (id ∷ ids)) [] w
        ≡ waiting (record {
          ui = record w.ui { rerun_busy = true; rerun_notice = "" };
          sent = w.sent ++ map rerun_request (id ∷ ids);
        })
  unfolding rerun_events rerun_one api_request exec ◌>>=◌
  rerun_events-sends_all key id ids w =
      rw
        (
          exec-finally,
          exec-catch,
          exec-bind,
          exec-gather rerun_request replied id ids,
          sent-add_all rerun_request replied (id ∷ ids),
        )
        refl

  -- A click that reclassifies selected events sends one request for each, in the order of the list,
  -- all of them before any reply is there, and marks the tab as busy meanwhile.
  pub rerun_selected_events-sends_all :
      (s : State) (w : World State) (id : Value) (ids : List Value)
      → selected_visible s.selected_event_ids s.recent_events ≡ id ∷ ids
      → exec (rerun_selected_events s) [] w
        ≡ waiting (record {
          ui = record w.ui { rerun_busy = true; rerun_notice = "" };
          sent = w.sent ++ map rerun_request (id ∷ ids);
        })
  unfolding rerun_selected_events exec ◌>>=◌
  rerun_selected_events-sends_all s w id ids h =
      rw (h, length-nonzero id ids) (rerun_events-sends_all s.selected_type_key id ids w)
