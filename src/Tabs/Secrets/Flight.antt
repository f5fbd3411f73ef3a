-- ===== src/Tabs/Secrets/Flight.antt =====
-- web/src/App.jsx, `IntegrationSecretsTab` on the page: saves of a secret do not overlap.
use webhook_listener.Prelude.{true, ◌≡◌, refl, Bool, false, List, arith}
use webhook_listener.Tabs.Secrets.{
  begin_edit_secret, State, SecretForm, fetch_secrets, persist_secret, delete_secret,
}
use webhook_listener.View.Safe.{Safe, Safe-Offers, safe_rules}
use webhook_listener.Tabs.Secrets.Panel.{
  Event, secrets_view, secrets_tab, on_event, type_key, type_purpose, type_value, press_save,
  press_cancel, press_refresh, press_rotate, press_delete,
}
use webhook_listener.Async.Stage.{Stage, Reach}
use webhook_listener.Async.Flight.Single.{Guarded, Exclusive, Duty, Reach-Exclusive}
use webhook_listener.Js.Value.{Value}
use webhook_listener.Js.Engine.{Engine}
use webhook_listener.Async.{◌>>=◌, catch, finally}
use webhook_listener.Async.Flight.{Quiet, Holds, Ends, Takes}
use webhook_listener.Api.{api_request}

abbrev pub busy : State → Bool
busy s = s.saving_secret

module _ ⦃js : Engine⦄ where
  fetch_secrets-Quiet : Quiet busy fetch_secrets
  unfolding fetch_secrets Quiet ◌>>=◌ catch finally api_request
  fetch_secrets-Quiet = ground arith

  delete_secret-Quiet : (secret editing : Value) → Quiet busy (delete_secret secret editing)
  unfolding delete_secret Quiet ◌>>=◌ catch finally api_request
  delete_secret-Quiet secret editing = ground arith

  persist_secret-Takes :
      (form : SecretForm) (editing : Value) → Takes busy (persist_secret form editing)
  unfolding persist_secret Quiet Holds Ends Takes ◌>>=◌ catch finally api_request
  persist_secret-Takes form editing = ground arith

  -- Only the button that saves waits for the flag.
  abbrev Needs : State → Event → Type 0
  Needs s press_save = busy s ≡ false
  Needs s m = Unit

  abbrev pub saves : State → Event → Bool
  saves s press_save = true
  saves s m = false

  on_event-Duty : (s : State) (m : Event) → Needs s m → Duty busy (saves s m) s (on_event s m)
  unfolding on_event Quiet begin_edit_secret
  on_event-Duty s (type_key v) h = ((λ t. refl), tt)
  on_event-Duty s (type_purpose v) h = ((λ t. refl), tt)
  on_event-Duty s (type_value v) h = ((λ t. refl), tt)
  on_event-Duty s press_save h = (h, persist_secret-Takes s.secret_form s.editing_secret_id)
  on_event-Duty s press_cancel h = ((λ t. refl), tt)
  on_event-Duty s press_refresh h = fetch_secrets-Quiet
  on_event-Duty s (press_rotate secret) h = ((λ t. refl), tt)
  on_event-Duty s (press_delete secret) h = (delete_secret-Quiet secret s.editing_secret_id)

  secrets_view-Safe :
      (listeners : List Value) (s : State) → Safe (Needs s) (secrets_view listeners s)
  unfolding secrets_view
  secrets_view-Safe listeners s = search (safe_rules, tt) depth 30

  secrets-Guarded : (listeners : List Value) → Guarded busy (secrets_tab listeners) saves
  unfolding secrets_tab
  secrets-Guarded listeners = record {
    down = refl;
    opens = (fetch_secrets-Quiet, tt);
    clicks = λ s m o. on_event-Duty s m (Safe-Offers (secrets_view-Safe listeners s) o);
    effects = λ s a e. elim e [ ];
  }

  -- In every state that the tab can reach, by any sequence of clicks, replies and answers: a
  -- press of the button that saves is offered only while its mark is down, the save puts the
  -- mark up first, and takes it down when it neither sends nor waits any more; no other
  -- control and no effect ever touches the mark; so at most one save is under way, the mark is
  -- up exactly while one waits, and it comes down, whatever the handlers wait for.
  pub secrets-IsSingle :
      (listeners : List Value) (t : Stage State)
      → Reach (secrets_tab listeners) t
      → Exclusive busy (secrets_tab listeners) saves t
  secrets-IsSingle listeners t r =
      Reach-Exclusive busy (secrets_tab listeners) saves (secrets-Guarded listeners) t r
