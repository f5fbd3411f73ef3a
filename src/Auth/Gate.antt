-- ===== src/Auth/Gate.antt =====
-- Submitting the login form.
use webhook_listener.Prelude.{◌≡◌, refl, false, true, String, List}
use webhook_listener.Js.Value.{Value}
use webhook_listener.Async.{Act, exec, World, Turn, finished, Result, ok, err, ◌>>=◌, set_ui}
use webhook_listener.Async.Laws.{exec-bind, exec-catch, exec-finally}
use webhook_listener.Async.Steps.{Settled}
use webhook_listener.Auth.Login.{State, submit}

-- The form while the login runs.
abbrev pub submitting : State → State
submitting s = record s { busy = true; local_error = "" }

-- The form after the login: the credential is gone if it was taken, and the reason is shown if not.
abbrev pub after_login : Result Value → State → State
after_login (ok v) s = record s { credential = ""; busy = false }
after_login (err e) s = record s { local_error = e; busy = false }

-- Once the login ends, the form is free again; the credential is dropped exactly if it was accepted,
-- and the message of a refusal is shown.
pub submit-settles :
    (login : String → Act State Value) (credential : String) (ts rest : List (Turn State))
    (w w' : World State) (r : Result Value)
    → exec (login credential) ts (set_ui submitting w) ≡ finished r rest w'
    → Settled
        (λ end. (end.ui ≡ after_login r w'.ui) × (end.sent ≡ w'.sent))
        (exec (submit login credential) ts w)
unfolding submit exec ◌>>=◌
submit-settles login credential ts rest w w' (ok v) h =
    rw (exec-finally, exec-catch, exec-bind, h) (refl, refl)
submit-settles login credential ts rest w w' (err e) h =
    rw (exec-finally, exec-catch, exec-bind, h) (refl, refl)
