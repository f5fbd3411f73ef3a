-- ===== src/Tests/Listeners.antt =====
-- Runs of the tab for URLs.
use webhook_listener.Async.{pure, exec, finished, ok}
use webhook_listener.Urls.Creation.{create_listener-settles, created_world}
use webhook_listener.Urls.Deletion.{delete_listener-settles, deleted}
use webhook_listener.Urls.Keys.{listener_key-injective}
use webhook_listener.Urls.Shown.{minted_url-delete_listener}
use webhook_listener.Tests.{sample_engine, row, row_text, answered, world, row_reply}
use webhook_listener.Prelude.{◌≡◌, refl, true, false, [], ◌∷◌, ◌++◌, some}
use webhook_listener.Js.Value.{Value, ◌⧺◌, to_text, prop, truthy, str, obj, null, field, end}
use webhook_listener.Js.Dict.{put, get}
use webhook_listener.Async.Steps.{OnResult, OnTest, Settled}
use webhook_listener.Api.{reply_result, fetch_request, no_options}
use webhook_listener.Urls.State.{State, key_of, listener_key, minted_url, initial}
use webhook_listener.Urls.Refresh.{with_identities}
use webhook_listener.Urls.Listeners.{create_listener, delete_listener}

abbrev made : Value
made = obj (field "webhook_url" (str "https://app.agenthook.store/acme.s3cret") end)

create_listener-settles_example :
    Settled
      (λ w'.
        (w'.ui
          ≡ record (with_identities (answered {S = State} 200 "[]") (
              created_world
                (initial null null)
                row
                (answered {S = State} 200 row_text)
                (world (initial null null)))).ui { submitting = false })
        × (w'.sent
            ≡ (with_identities (answered {S = State} 200 "[]") (
                created_world
                  (initial null null)
                  row
                  (answered {S = State} 200 row_text)
                  (world (initial null null)))).sent))
      (exec
        (create_listener (pure tt) (initial null null))
        ((answered {S = State} 200 row_text) ∷ (answered {S = State} 200 "[]" ∷ []))
        (world (initial null null)))
create_listener-settles_example =
    create_listener-settles (pure tt) (initial null null) (answered 200 row_text)
      (answered 200 "[]") (answered 200 "[]" ∷ []) [] (world (initial null null))
      (created_world (initial null null) row (answered 200 row_text) (world (initial null null)))
      row row_reply (unfold exec in refl)

delete_listener-settles_example :
    OnTest
      (answered {S = State} 200 "").answer
      (OnResult
        (reply_result (answered {S = State} 200 row_text).reply)
        (λ _.
          Settled
            (λ w'.
              (w'.ui.secret_map
                ≡ ((answered {S = State} 200 "[]").meanwhile
                    (record (deleted row
                      (answered {S = State} 200 row_text)
                      (world (initial null null))).ui { loading_identities = true })).secret_map)
              × (w'.ui.loading_identities ≡ false)
              × (w'.sent
                  ≡ (deleted row
                      (answered {S = State} 200 row_text)
                      (world (initial null null))).sent
                    ++ fetch_request "/api/webhook-identities" no_options ∷ []))
            (exec
              (delete_listener (pure tt) row)
              ((answered {S = State} 200 "")
                ∷ (answered {S = State} 200 row_text)
                ∷ (answered {S = State} 200 "[]" ∷ []))
              (world (initial null null))))
        (λ e.
          Settled
            (λ w'.
              w'.ui
              ≡ record ((answered {S = State} 200 row_text).meanwhile
                  (world (initial null null)).ui) { error = "Failed to delete listener: " ⧺ e })
            (exec
              (delete_listener (pure tt) row)
              ((answered {S = State} 200 "")
                ∷ (answered {S = State} 200 row_text)
                ∷ (answered {S = State} 200 "[]" ∷ []))
              (world (initial null null)))))
      (exec
          (delete_listener (pure tt) row)
          ((answered {S = State} 200 "") ∷ (answered {S = State} 200 "[]" ∷ []))
          (world (initial null null))
        ≡ finished (ok tt) (answered {S = State} 200 "[]" ∷ []) (world (initial null null)))
delete_listener-settles_example =
    delete_listener-settles (pure tt) row (answered 200 "") (answered 200 row_text)
      (answered 200 "[]") (answered 200 "[]" ∷ []) [] (world (initial null null))
      (deleted row (answered 200 row_text) (world (initial null null))) (unfold exec in refl)

listener_key-injective_example :
    (to_text (str "github") ≡ to_text (str "github"))
    × (to_text (str "repo") ≡ to_text (str "repo"))
listener_key-injective_example =
    listener_key-injective (str "github") (str "github") (str "repo") (str "repo")
      (unfold to_text in refl) (unfold to_text in refl) refl

abbrev known : State
known = record (initial null null) { secret_map = put (key_of row) made [] }

made_known : get (key_of row) known.secret_map ≡ some made
unfolding get prop to_text put listener_key
made_known = refl

minted_url-delete_listener_example :
    Settled
      (λ w'.
        minted_url row (str "acme") "https://app.agenthook.store" w'.ui ≡ prop "webhook_url" made)
      (exec
        (delete_listener (pure tt) row)
        ((answered {S = State} 200 "")
          ∷ (answered {S = State} 200 row_text)
          ∷ (answered {S = State} 200 "[]" ∷ []))
        (world known))
minted_url-delete_listener_example =
    minted_url-delete_listener (pure tt) row (str "acme") made row "https://app.agenthook.store"
      (answered 200 "") (answered 200 row_text) (answered 200 "[]") (answered 200 "[]" ∷ []) []
      (world known) (deleted row (answered 200 row_text) (world known)) refl row_reply
      (unfold exec in refl) refl refl refl made_known (unfold truthy prop in refl)
