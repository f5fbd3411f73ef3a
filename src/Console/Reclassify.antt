-- ===== src/Console/Reclassify.antt =====
-- Reclassifying an event of the storyboard.
use webhook_listener.Async.{Request, exec, World, Turn, ◌>>=◌, catch, finally}
use webhook_listener.Prelude.{
  ◌≡◌, refl, ap, true, false, String, ◌==◌, eq_iff, List, [], ◌∷◌, ◌++◌, map, arith, if◌then◌else◌,
  Bool, Bool-cases, inl, inr, none,
}
use webhook_listener.Js.Value.{
  Value, undefined, null, bool, num, str, prop, truthy, strict_eq, to_text, ◌⧺◌,
}
use webhook_listener.Js.Dict.{Dict, get, put, get-remove}
use webhook_listener.Js.Engine.{Engine}
use webhook_listener.Async.Steps.{
  OnResult, OnResult-map, case_result, OnTest, OnTest-map, case_test, Settled, Settled-map,
}
use webhook_listener.Api.{api_request, reply_result, fetch_request, with_method, no_options}
use webhook_listener.Console.Storyboard.{
  State, replace_event, start_reclassify, end_reclassify, reclassify_event, events_path,
}

strict_eq→≡ : (a b : Value) → strict_eq a b ≡ true → a ≡ b
unfolding strict_eq
strict_eq→≡ undefined undefined h = refl
strict_eq→≡ null null h = refl
strict_eq→≡ (bool true) (bool true) h = refl
strict_eq→≡ (bool false) (bool false) h = refl
strict_eq→≡ (num m) (num n) h = ap num ((eq_iff m n).0 h)
strict_eq→≡ (str s) (str t) h = ap str ((eq_iff s t).0 h)
strict_eq→≡ a b h = cc

-- Replacing an event keeps the identifiers of the list, one by one and in their order.
pub ids-replace_event :
    (updated : Value) (events : List Value)
    → map (prop "id") (replace_event updated events) ≡ map (prop "id") events
unfolding replace_event
ids-replace_event updated [] = refl
ids-replace_event updated (e ∷ events) =
    elim (Bool-cases (strict_eq (prop "id" e) (prop "id" updated))) [
      | inl same ↦
          rw (same, strict_eq→≡ (prop "id" e) (prop "id" updated) same)
            (ap (prop "id" updated ∷◌) (ids-replace_event updated events))
      | inr other ↦ rw other (ap (prop "id" e ∷◌) (ids-replace_event updated events))
    ]

-- The mark of the event is taken off and the marks of the others stay.
pub end_reclassify-marks :
    (id : Value) (k : String) (s : State)
    → get k (end_reclassify id s).reclassifying_event_ids
      ≡ (if to_text id == k then none else get k s.reclassifying_event_ids)
end_reclassify-marks id k s = get-remove (to_text id) k s.reclassifying_event_ids

module _ ⦃js : Engine⦄ where
  abbrev pub rerun_request : Value → Request
  rerun_request id = fetch_request ("/api/events/" ⧺ to_text id ⧺ "/re-run") (with_method "POST")

  -- The ends of the handler, by its own updates.
  reclassify_event-runs :
      (tag id : Value) (t₁ t₂ : Turn State) (ts : List (Turn State)) (w : World State)
      → let s = t₁.meanwhile (start_reclassify id w.ui) in
        OnResult
          (reply_result t₁.reply)
          (λ v.
            OnTest
              (truthy (prop "id" (prop "event" v)))
              (Settled
                (λ w'.
                  (w'.ui
                    ≡ end_reclassify id
                        (record s { events = replace_event (prop "event" v) s.events }))
                  × (w'.sent ≡ w.sent ++ rerun_request id ∷ []))
                (exec (reclassify_event tag id) (t₁ ∷ ts) w))
              (Settled
                (λ w'.
                  (w'.ui.fetching ≡ false)
                  × (w'.ui.reclassifying_event_ids
                      ≡ (end_reclassify id
                          (t₂.meanwhile (record s { fetching = true }))).reclassifying_event_ids)
                  × (w'.sent
                      ≡ (w.sent ++ rerun_request id ∷ [])
                        ++ fetch_request (events_path tag) no_options ∷ []))
                (exec (reclassify_event tag id) (t₁ ∷ t₂ ∷ ts) w)))
          (λ e.
            Settled
              (λ w'. (w'.ui ≡ end_reclassify id s) × (w'.sent ≡ w.sent ++ rerun_request id ∷ []))
              (exec (reclassify_event tag id) (t₁ ∷ ts) w))
  unfolding reclassify_event exec ◌>>=◌ catch finally api_request
  reclassify_event-runs tag id t₁ t₂ ts w =
      case_result (reply_result t₁.reply) _ _
        (λ v h.
          case_test (truthy (prop "id" (prop "event" v))) _ _ (λ k. ground arith)
            (λ k. ground arith))
        (λ e h. ground arith)

  -- The mark of the event is gone, and those of the others are as they were.
  abbrev pub Unmarks : Value → State → State → Type 0
  Unmarks id s s' =
      (k : String)
      → get k s'.reclassifying_event_ids
        ≡ (if to_text id == k then none else get k s.reclassifying_event_ids)

  end-Unmarks :
      (id : Value) (s s' : State)
      → s'.reclassifying_event_ids ≡ (end_reclassify id s).reclassifying_event_ids
      → Unmarks id s s'
  end-Unmarks id s s' h k = rw h (end_reclassify-marks id k s)

  -- The state with the updated event in the place of the one with its identifier, at `marks`.
  abbrev pub updated : Value → State → Dict Bool → State
  updated event s marks = record s {
    events =
        map (λ old. if strict_eq (prop "id" old) (prop "id" event) then event else old) s.events;
    reclassifying_event_ids = marks;
  }

  updated-replace :
      (event id : Value) (s : State)
      → end_reclassify id (record s { events = replace_event event s.events })
        ≡ updated event s (end_reclassify id s).reclassifying_event_ids
  unfolding replace_event
  updated-replace event id s = refl

  -- How a run ends, for the replies of the two kinds and for a refusal.
  abbrev pub Replaced : (event id : Value) → State → List Request → World State → Type 0
  Replaced event id s sent w =
      (w.ui ≡ updated event s w.ui.reclassifying_event_ids) × Unmarks id s w.ui × (w.sent ≡ sent)

  abbrev pub Fetched : Value → State → List Request → World State → Type 0
  Fetched id s sent w = (w.ui.fetching ≡ false) × Unmarks id s w.ui × (w.sent ≡ sent)

  abbrev pub Refused : Value → State → List Request → World State → Type 0
  Refused id s sent w =
      (w.ui ≡ record s { reclassifying_event_ids = w.ui.reclassifying_event_ids })
      × Unmarks id s w.ui
      × (w.sent ≡ sent)

  end-Replaced :
      (event id : Value) (s : State) (sent : List Request) (w : World State)
      → (w.ui ≡ end_reclassify id (record s { events = replace_event event s.events }))
        × (w.sent ≡ sent)
      → Replaced event id s sent w
  unfolding replace_event
  end-Replaced event id s sent w h = (cc, end-Unmarks id s w.ui cc, h.1)

  end-Fetched :
      (id : Value) (s : State) (sent : List Request) (w : World State)
      → (w.ui.fetching ≡ false)
        × (w.ui.reclassifying_event_ids ≡ (end_reclassify id s).reclassifying_event_ids)
        × (w.sent ≡ sent)
      → Fetched id s sent w
  end-Fetched id s sent w h = (h.0, end-Unmarks id s w.ui h.1, h.2)

  end-Refused :
      (id : Value) (s : State) (sent : List Request) (w : World State)
      → (w.ui ≡ end_reclassify id s) × (w.sent ≡ sent)
      → Refused id s sent w
  end-Refused id s sent w h = (cc, end-Unmarks id s w.ui cc, h.1)

  -- Reclassifying ends after two waits at most, with the request for the event sent. Its mark, which
  -- was put up before the request, is then gone from the state that the last wait left, and no other
  -- mark is; an updated event takes the place of the one with its identifier in the list as it is
  -- then, a reply without one has the list fetched again, and a refusal changes nothing else.
  pub reclassify_event-settles :
      (tag id : Value) (t₁ t₂ : Turn State) (ts : List (Turn State)) (w : World State)
      → let marks = put (to_text id) true w.ui.reclassifying_event_ids in
        let s = t₁.meanwhile (record w.ui { reclassifying_event_ids = marks }) in
        let sent = w.sent ++ rerun_request id ∷ [] in
        OnResult
          (reply_result t₁.reply)
          (λ v.
            OnTest
              (truthy (prop "id" (prop "event" v)))
              (Settled
                (Replaced (prop "event" v) id s sent)
                (exec (reclassify_event tag id) (t₁ ∷ ts) w))
              (Settled
                (Fetched id
                  (t₂.meanwhile (record s { fetching = true }))
                  (sent ++ fetch_request (events_path tag) no_options ∷ []))
                (exec (reclassify_event tag id) (t₁ ∷ t₂ ∷ ts) w)))
          (λ e. Settled (Refused id s sent) (exec (reclassify_event tag id) (t₁ ∷ ts) w))
  reclassify_event-settles tag id t₁ t₂ ts w =
      let s = t₁.meanwhile (start_reclassify id w.ui) in
      let sent = w.sent ++ rerun_request id ∷ [] in
      OnResult-map (reply_result t₁.reply) _ _ _ _ (reclassify_event-runs tag id t₁ t₂ ts w)
        (λ v.
          OnTest-map (truthy (prop "id" (prop "event" v))) _ _ _ _
            (Settled-map _ _ (exec (reclassify_event tag id) (t₁ ∷ ts) w)
              (end-Replaced (prop "event" v) id s sent))
            (Settled-map _ _ (exec (reclassify_event tag id) (t₁ ∷ t₂ ∷ ts) w)
              (end-Fetched id (t₂.meanwhile (record s { fetching = true })) _)))
        (λ e. Settled-map _ _ (exec (reclassify_event tag id) (t₁ ∷ ts) w) (end-Refused id s sent))
