-- ===== src/Auth/Login/Form.antt =====
-- web/src/App.jsx, `SingleTenantLogin`: what the form shows, what its controls do, and that
-- submissions do not overlap.
use webhook_listener.Prelude.{
  ◌≡◌, refl, Bool, true, false, not, ◌&&◌, ◌||◌, String, ◌==◌, [], Option, none, some, inl,
  if◌then◌else◌,
}
use webhook_listener.Js.Value.{Value, prop, is_text, ◌⧺◌}
use webhook_listener.Js.Text.{trim}
use webhook_listener.Async.{Act, ◌>>=◌}
use webhook_listener.Async.Stage.{Stage, Component, NoEffect, Reach}
use webhook_listener.Async.Steps.{set_state}
use webhook_listener.Async.Flight.{Quiet, Holds, Ends, Takes}
use webhook_listener.Async.Flight.Rules.{quiet_rules, Holds-finally}
use webhook_listener.Async.Flight.Single.{Guarded, Exclusive, Duty, Reach-Exclusive}
use webhook_listener.View.{View, ◌&◌, text, button, shown_if}
use webhook_listener.View.Parts.{form_field, text_input, inline_notice}
use webhook_listener.View.Safe.{Safe, Safe-Offers, safe_rules}
use webhook_listener.Auth.Login.{State, initial, credential_label, submit}

pub data Event : Type 0 where
  type_credential : String → Event
  press_submit : Event

abbrev pub uses_setup_token : Value → Bool
uses_setup_token profile = is_text (prop "auth_mode" profile) "single_tenant_setup_token"

abbrev pub uses_claim : Value → Bool
uses_claim profile = is_text (prop "auth_mode" profile) "single_tenant_claim"

abbrev pub instruction : Value → String
instruction profile =
    if uses_setup_token profile
    then "Enter the setup token configured for this Railway service to open the private operator console."
    else if uses_claim profile
    then "Enter the one-time owner claim code printed in the Railway service logs after first deploy."
    else "Enter the admin secret configured for this Railway service to open the private operator console."

-- `base_url` is the address of the profile, and `error` the error of the session. A form whose
-- button is disabled is not submitted by the return key either.
unfoldable pub login_view : Value → (base_url error : String) → State → View Event
unfolding credential_label
login_view profile base_url error s =
    text "Single-tenant deployment"
    & text "Unlock AgentHook"
    & text (instruction profile)
    & text ("Public base URL: " ⧺ base_url)
    & shown_if (not (uses_setup_token profile) && not (uses_claim profile)) (
        inline_notice
          "In Railway, open the agenthook service variables and copy SINGLE_TENANT_ADMIN_SECRET. This secret is reusable until you rotate it in Railway.")
    & shown_if (uses_claim profile) (
        inline_notice
          "In Railway, open the agenthook service logs and copy the value after claim_code=. The code can be used once and expires automatically.")
    & shown_if (not (error == "") || not (s.local_error == ""))
        (inline_notice (if s.local_error == "" then error else s.local_error))
    & form_field (credential_label profile) (text_input s.credential type_credential)
    & button (if s.busy then "UNLOCKING..." else "UNLOCK CONSOLE")
        (s.busy || trim s.credential == "") press_submit

module _ (login : String → Act State Value) where
  unfoldable pub on_event : State → Event → Act State Unit
  on_event s (type_credential v) = set_state (λ t. record t { credential = v })
  on_event s press_submit = submit login s.credential

  unfoldable pub login_form :
      Value → (base_url error : String) → (claim_code : Option String) → Component State Event
  login_form profile base_url error claim_code = record {
    start = initial claim_code;
    opening = [];
    view = login_view profile base_url error;
    on = on_event;
    effect = NoEffect;
  }

abbrev pub busy : State → Bool
busy s = s.busy

or-left : (a b : Bool) → (a || b) ≡ false → a ≡ false
or-left true b h = h
or-left false b h = refl

-- Only the button that submits waits for the flag.
abbrev Needs : State → Event → Type 0
Needs s press_submit = busy s ≡ false
Needs s m = Unit

abbrev pub submits : State → Event → Bool
submits s press_submit = true
submits s m = false

login_view-Safe :
    (profile : Value) (base_url error : String) (s : State)
    → Safe (Needs s) (login_view profile base_url error s)
unfolding login_view
login_view-Safe profile base_url error s = search (safe_rules, or-left, tt) depth 30

module _ (login : String → Act State Value) (quiet : (c : String) → Quiet busy (login c)) where
  submit-Takes : (credential : String) → Takes busy (submit login credential)
  unfolding submit Takes Holds Ends ◌>>=◌
  submit-Takes credential = (
    (λ s. refl),
    inl ((λ s. refl), Holds-finally busy _ _ (search (quiet_rules, quiet) depth 30) (λ s. refl)),
  )

  on_event-Duty :
      (s : State) (m : Event) → Needs s m → Duty busy (submits s m) s (on_event login s m)
  unfolding on_event Quiet
  on_event-Duty s (type_credential v) h = ((λ t. refl), tt)
  on_event-Duty s press_submit h = (h, submit-Takes s.credential)

  module _ (profile : Value) (base_url error : String) (claim_code : Option String) where
    initial-free : (code : Option String) → busy (initial code) ≡ false
    initial-free none = refl
    initial-free (some code) = refl

    login-Guarded : Guarded busy (login_form login profile base_url error claim_code) submits
    unfolding login_form
    login-Guarded = record {
      down = initial-free claim_code;
      opens = tt;
      clicks =
          λ s m o. on_event-Duty s m (Safe-Offers (login_view-Safe profile base_url error s) o);
      effects = λ s a e. elim e [ ];
    }

    -- If signing in leaves the form's own mark alone: in every state that the form can
    -- reach, by any sequence of clicks, replies and answers: a press of the button that
    -- submits is offered only while its mark is down, the submission puts the mark up first,
    -- and takes it down when it neither sends nor waits any more; no other control and no
    -- effect ever touches the mark; so at most one submission is under way, the mark is up
    -- exactly while one waits, and it comes down, whatever the handlers wait for.
    pub login-IsSingle :
        (t : Stage State)
        → Reach (login_form login profile base_url error claim_code) t
        → Exclusive busy (login_form login profile base_url error claim_code) submits t
    login-IsSingle t r =
        Reach-Exclusive busy (login_form login profile base_url error claim_code) submits
          login-Guarded t r
