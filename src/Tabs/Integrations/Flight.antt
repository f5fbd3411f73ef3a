-- ===== src/Tabs/Integrations/Flight.antt =====
-- web/src/App.jsx, `IntegrationsTab` on the page: saves of a target do not overlap.
use webhook_listener.Prelude.{true, ◌≡◌, refl, Bool, false, String, arith}
use webhook_listener.Js.Value.{Value}
use webhook_listener.Js.Engine.{Engine}
use webhook_listener.Async.{◌>>=◌, catch, finally}
use webhook_listener.Async.Stage.{Stage, Reach}
use webhook_listener.Async.Flight.{Quiet, Holds, Ends, Takes}
use webhook_listener.Async.Flight.Single.{Guarded, Exclusive, Duty, Reach-Exclusive}
use webhook_listener.Api.{api_request}
use webhook_listener.View.Safe.{Safe, Safe-Offers, safe_rules}
use webhook_listener.Tabs.Integrations.{
  State, TargetForm, fetch_targets, fetch_secrets, persist_target, delete_target, begin_edit_target,
  toggle_action,
}
use webhook_listener.Tabs.Integrations.Presets.{apply_integration_preset, with_preset}
use webhook_listener.Tabs.Integrations.Panel.Cards.{
  Event, target_card, target_details, load_preset, toggle, choose_enabled, type_field, press_save,
  press_reset, press_refresh, press_card, press_edit, press_delete,
}
use webhook_listener.Tabs.Integrations.Panel.{
  integrations_view, integrations_tab, on_event, create_panel, target_fields, json_fields,
  auth_fields,
}

abbrev pub busy : State → Bool
busy s = s.saving_target

module _ ⦃js : Engine⦄ where
  fetch_targets-Quiet : Quiet busy fetch_targets
  unfolding fetch_targets Quiet ◌>>=◌ catch finally api_request
  fetch_targets-Quiet = ground arith

  fetch_secrets-Quiet : Quiet busy fetch_secrets
  unfolding fetch_secrets Quiet ◌>>=◌ catch finally api_request
  fetch_secrets-Quiet = ground arith

  delete_target-Quiet : (target editing : Value) → Quiet busy (delete_target target editing)
  unfolding delete_target Quiet ◌>>=◌ catch finally api_request
  delete_target-Quiet target editing = ground arith

  preset-keeps : (key : String) (s : State) → busy (apply_integration_preset key s) ≡ busy s
  unfolding apply_integration_preset with_preset
  preset-keeps key s = ground arith

  persist_target-Takes :
      (form : TargetForm) (editing : Value) → Takes busy (persist_target form editing)
  unfolding persist_target Quiet Holds Ends Takes ◌>>=◌ catch finally api_request
  persist_target-Takes form editing = ground arith

  -- Only the button that saves waits for the flag.
  abbrev Needs : State → Event → Type 0
  Needs s press_save = busy s ≡ false
  Needs s m = Unit

  abbrev pub saves : State → Event → Bool
  saves s press_save = true
  saves s m = false

  on_event-Duty : (s : State) (m : Event) → Needs s m → Duty busy (saves s m) s (on_event s m)
  unfolding on_event Quiet toggle_action begin_edit_target
  on_event-Duty s press_save h = (h, persist_target-Takes s.target_form s.editing_target_id)
  on_event-Duty s press_refresh h = fetch_targets-Quiet
  on_event-Duty s (press_delete target) h = (delete_target-Quiet target s.editing_target_id)
  on_event-Duty s (load_preset key) h = (preset-keeps key, tt)
  on_event-Duty s (toggle action) h = ((λ t. refl), tt)
  on_event-Duty s (choose_enabled v) h = ((λ t. refl), tt)
  on_event-Duty s (type_field f v) h = ((λ t. refl), tt)
  on_event-Duty s press_reset h = ((λ t. refl), tt)
  on_event-Duty s (press_card id) h = ((λ t. refl), tt)
  on_event-Duty s (press_edit target) h = ((λ t. refl), tt)

  module _ (local_time : Value → String) where
    target_card-Safe :
        (s : State) (expanded target : Value)
        → Safe (Needs s) (target_card local_time expanded target)
    unfolding target_card target_details
    target_card-Safe s expanded target = search (safe_rules, tt) depth 40

    create_panel-Safe : (s : State) → Safe (Needs s) (create_panel s)
    unfolding create_panel target_fields json_fields auth_fields
    create_panel-Safe s = search (safe_rules, tt) depth 40

    integrations_view-Safe : (s : State) → Safe (Needs s) (integrations_view local_time s)
    unfolding integrations_view
    integrations_view-Safe s =
        search (safe_rules, target_card-Safe s, create_panel-Safe s, tt) depth 40

    integrations-Guarded : Guarded busy (integrations_tab local_time) saves
    unfolding integrations_tab
    integrations-Guarded = record {
      down = refl;
      opens = (fetch_targets-Quiet, (fetch_secrets-Quiet, tt));
      clicks = λ s m o. on_event-Duty s m (Safe-Offers (integrations_view-Safe s) o);
      effects = λ s a e. elim e [ ];
    }

    -- In every state that the tab can reach, by any sequence of clicks, replies and answers:
    -- a press of the button that saves is offered only while its mark is down, the save puts
    -- the mark up first, and takes it down when it neither sends nor waits any more; no
    -- other control and no effect ever touches the mark; so at most one save is under way,
    -- the mark is up exactly while one waits, and it comes down, whatever the handlers wait
    -- for.
    pub integrations-IsSingle :
        (t : Stage State)
        → Reach (integrations_tab local_time) t
        → Exclusive busy (integrations_tab local_time) saves t
    integrations-IsSingle t r =
        Reach-Exclusive busy (integrations_tab local_time) saves integrations-Guarded t r
