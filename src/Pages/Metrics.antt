-- ===== src/Pages/Metrics.antt =====
-- web/src/components/Metrics.jsx: the count of hooks that the storyboard shows.
use webhook_listener.Prelude.{
  ℕ, ◌≡◌, Bool, true, not, String, List, [], ◌∷◌, ◌++◌, Option, none, some, length, arith,
  if◌then◌else◌,
}
use webhook_listener.Js.Value.{
  prop, Items, Fields, Value, undefined, null, bool, num, str, arr, obj, items,
}
use webhook_listener.Js.Decimal.{show}
use webhook_listener.Js.Engine.{Engine}
use webhook_listener.Async.{
  Act, send, await, Request, Reply, failed, responded, exec, World, Turn, finished, ok, ◌>>=◌,
}
use webhook_listener.Async.Steps.{set_state, skip}
use webhook_listener.View.{View, ◌&◌, text, value}

pub record State : Type 0 where
  pub active : Value
  pub accuracy : Value

abbrev pub initial : State
initial = record { active = num "0"; accuracy = num "99.8" }

unfoldable pub metrics_view : {M : Type 0} → State → View M
metrics_view s =
    text "ACTIVE HOOKS"
    & value s.active
    & text "/ 20"
    & text "MONTHLY MESSAGES"
    & text "0"
    & text "/ 3,000"
    & text
        "Free Plan: Outbound emails are disabled. Upgrade to Enterprise for full outbound support and custom domain."

abbrev pub stats_request : Request
stats_request = record {
  path = "/v1/listeners";
  method = "GET";
  headers = ("Accept", "application/json") ∷ [];
  credentials = "include";
  body = none;
}

-- `text_length` is the length of a text in UTF-16 units.
module _ ⦃js : Engine⦄ (text_length : String → ℕ) where
  -- data.length; `none` where reading it throws
  unfoldable pub length_of : Value → Option Value
  length_of undefined = none
  length_of null = none
  length_of (str s) = some (num (show (text_length s)))
  length_of (arr xs) = some (num (show (length (items (arr xs)))))
  length_of (obj fs) = some (prop "length" (obj fs))
  length_of (bool b) = some undefined
  length_of (num n) = some undefined

  -- The two `then`, with the `catch` that logs whatever they throw.
  unfoldable pub take_stats : Reply → Act State Unit
  unfolding length_of
  take_stats (failed e) = skip
  take_stats (responded status body) = elim (js.parse body) [
    | none ↦ skip
    | some reply ↦ elim (length_of reply) [
      | none ↦ skip
      | some count ↦ set_state (λ s. record s { active = count })
    ]
  ]

  unfoldable pub fetch_stats : (is_authenticated : Bool) → Act State Unit
  unfolding take_stats
  fetch_stats is_authenticated =
      if not is_authenticated then skip else send stats_request (await take_stats)

  -- Whatever the status of the reply: an object with no length, such as the body of an error, takes
  -- the number off the page, and a list puts its length there.
  pub fetch_stats-counts :
      (status : ℕ) (body list : String) (fs : Fields) (xs : Items) (t : Turn State)
      (ts : List (Turn State)) (w : World State)
      → js.parse body ≡ some (obj fs)
      → prop "length" (obj fs) ≡ undefined
      → js.parse list ≡ some (arr xs)
      → (exec (fetch_stats true) (record t { reply = responded status body } ∷ ts) w
          ≡ finished (ok tt) ts (record {
            ui = record (t.meanwhile w.ui) { active = undefined };
            sent = w.sent ++ stats_request ∷ [];
          }))
        × (exec (fetch_stats true) (record t { reply = responded status list } ∷ ts) w
            ≡ finished (ok tt) ts (record {
              ui = record (t.meanwhile w.ui) { active = num (show (length (items (arr xs)))) };
              sent = w.sent ++ stats_request ∷ [];
            }))
  unfolding fetch_stats take_stats length_of exec ◌>>=◌
  fetch_stats-counts status body list fs xs t ts w p q r = (ground arith, ground arith)
