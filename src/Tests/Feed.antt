-- ===== src/Tests/Feed.antt =====
-- Runs of the storyboard, and a walk through the tabs.
use webhook_listener.Console.Reclassify.{
  reclassify_event-settles, rerun_request, Replaced, Fetched, Refused,
}
use webhook_listener.Console.Filter.{fetch_events-last_reply}
use webhook_listener.Tests.{
  sample_engine, row, row_text, answered, offline, world, row_reply, list_reply,
}
use webhook_listener.Async.{exec, settle_both, Turn}
use webhook_listener.Prelude.{◌≡◌, true, false, [], ◌∷◌, ◌++◌}
use webhook_listener.Js.Value.{null, str, arr, prop, truthy, nil, to_text}
use webhook_listener.Js.Dict.{put}
use webhook_listener.Async.Steps.{OnResult, OnTest, Settled}
use webhook_listener.Api.{reply_result, fetch_request, no_options, rows}
use webhook_listener.Console.Storyboard.{
  State, reclassify_event, events_path, fetch_events, initial,
}

abbrev before : State
before = record (initial "storyboard") {
  events = row ∷ [];
  reclassifying_event_ids = put "9" true [];
}

abbrev first_turn : Turn State
first_turn = answered 200 row_text

abbrev second_turn : Turn State
second_turn = answered 200 "[]"

reclassify_event-settles_example :
    let marks = put (to_text (str "7")) true before.reclassifying_event_ids in
    let s = first_turn.meanwhile (record before { reclassifying_event_ids = marks }) in
    let sent = [] ++ rerun_request (str "7") ∷ [] in
    OnResult
      (reply_result first_turn.reply)
      (λ v.
        OnTest
          (truthy (prop "id" (prop "event" v)))
          (Settled
            (Replaced (prop "event" v) (str "7") s sent)
            (exec (reclassify_event null (str "7")) (first_turn ∷ []) (world before)))
          (Settled
            (Fetched
              (str "7")
              (second_turn.meanwhile (record s { fetching = true }))
              (sent ++ fetch_request (events_path null) no_options ∷ []))
            (exec
              (reclassify_event null (str "7"))
              (first_turn ∷ second_turn ∷ [])
              (world before))))
      (λ e.
        Settled
          (Refused (str "7") s sent)
          (exec (reclassify_event null (str "7")) (first_turn ∷ []) (world before)))
reclassify_event-settles_example =
    reclassify_event-settles null (str "7") first_turn second_turn [] (world before)

fetch_events-last_reply_example :
    Settled
      (λ w'. (w'.ui.events ≡ rows (arr nil)) × (w'.ui.fetching ≡ false))
      (exec
        (settle_both (fetch_events null) (fetch_events (str "news")))
        ((offline {S = State})
          ∷ (answered {S = State} 200 row_text)
          ∷ (answered {S = State} 200 "[]")
          ∷ [])
        (world (initial "storyboard")))
fetch_events-last_reply_example =
    fetch_events-last_reply null (str "news") row (arr nil) offline (answered 200 row_text)
      (answered 200 "[]") [] (world (initial "storyboard")) row_reply list_reply
