-- ===== src/Tests/Session.antt =====
-- Runs of the session.
use webhook_listener.Auth.Invariant.{
  refusal, credential_request, with_profile, accepts, readable, fetch_user-settles,
  init-needs_profile, login-branches, IsConsistent, user_in, signed,
}
use webhook_listener.Prelude.{false, ◌≡◌, refl, [], ◌∷◌, ◌++◌, some, if◌then◌else◌}
use webhook_listener.Async.Steps.{OnResult, OnTest, Settled}
use webhook_listener.Async.{Turn, exec, finished, ok, err}
use webhook_listener.Tests.{sample_engine, row_text, answered, offline, world}
use webhook_listener.Auth.Session.{
  State, get_request, fetch_user, init, asks_credential, login, initial,
}
use webhook_listener.Js.Value.{Value, null, undefined, str, truthy}

abbrev mode : Value
mode = str "single_tenant_admin_secret"

fetch_user-settles_example :
    Settled
      (λ w'.
        (w'.ui
          ≡ signed
              (user_in (answered {S = State} 200 row_text).reply)
              ((answered {S = State} 200 row_text).meanwhile (world initial).ui))
        × IsConsistent w'.ui
        × (w'.sent ≡ (world initial).sent ++ get_request "/api/me" ∷ []))
      (exec fetch_user ((answered {S = State} 200 row_text) ∷ []) (world initial))
fetch_user-settles_example = fetch_user-settles (answered 200 row_text) [] (world initial)

init-needs_profile_example :
    exec (init (str "denied")) ((offline {S = State}) ∷ (offline {S = State}) ∷ []) (world initial)
    ≡ finished (err "Failed to fetch") [] (record {
      ui =
          record ((offline {S = State}).meanwhile
            (if truthy (str "denied") then record initial { error = str "denied" } else initial)) {
              loading = false;
            };
      sent = (world initial).sent ++ get_request "/api/app-profile" ∷ [];
    })
init-needs_profile_example =
    init-needs_profile (str "denied") offline offline [] (world initial) "Failed to fetch" refl refl

abbrev refused : Turn State
refused = answered 403 "{}"

abbrev before_reply : State
before_reply = refused.meanwhile (record initial { error = null })

login-branches_example :
    OnTest
      (asks_credential mode)
      (OnResult
        (readable refused.reply)
        (λ answer.
          OnTest
            (accepts refused.reply)
            (Settled
              (λ w'.
                (w'.ui
                  ≡ signed
                      (user_in (offline {S = State}).reply)
                      (offline.meanwhile (with_profile answer before_reply)))
                × (w'.sent
                    ≡ ([] ++ credential_request mode "s3cret" ∷ []) ++ get_request "/api/me" ∷ []))
              (exec (login mode "s3cret") (refused ∷ offline ∷ []) (world initial)))
            (Settled
              (λ w'.
                (w'.ui ≡ record before_reply { error = refusal refused.reply answer })
                × (w'.sent ≡ [] ++ credential_request mode "s3cret" ∷ []))
              (exec (login mode "s3cret") (refused ∷ []) (world initial))))
        (λ e.
          exec (login mode "s3cret") (refused ∷ []) (world initial)
          ≡ finished
              (err e)
              []
              (record { ui = before_reply; sent = [] ++ credential_request mode "s3cret" ∷ [] })))
      (exec (login mode "s3cret") (refused ∷ []) (world initial)
        ≡ finished
            (ok undefined)
            (refused ∷ [])
            (record { ui = record initial { location = some "/auth/scalekit/login" }; sent = [] }))
login-branches_example = login-branches mode "s3cret" refused offline [] (world initial)
