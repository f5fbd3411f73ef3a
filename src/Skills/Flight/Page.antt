-- ===== src/Skills/Flight/Page.antt =====
-- web/src/App.jsx, `SkillsTab` on the page: what its buttons may do while skills are installed.
use webhook_listener.Prelude.{◌≡◌, refl, Bool, true, false, ◌||◌, String, List}
use webhook_listener.Js.Value.{Value}
use webhook_listener.Js.Engine.{Engine}
use webhook_listener.Async.{Act}
use webhook_listener.Async.Stage.{Stage, Component, Reach}
use webhook_listener.Async.Flight.{Quiet}
use webhook_listener.Async.Flight.Single.{Guarded, Exclusive, Duty, Reach-Exclusive}
use webhook_listener.View.Safe.{Safe, Safe-Offers, safe_rules}
use webhook_listener.Skills.State.{State, ListenerOption, selected_listener}
use webhook_listener.Skills.Editing.{begin_edit_skill, cancel_edit_skill}
use webhook_listener.Skills.Events.{toggle_event_selection, toggle_all_visible_events}
use webhook_listener.Skills.Flight.{
  busy, sync_selection-keeps, prefetch_skills-Quiet, load_skills-Quiet, load_recent_events-Quiet,
  create_skill-Quiet, save_skill-Quiet, run_classify-Quiet, run_transform-Quiet,
  rerun_selected_events-Quiet, copy_text-Quiet, apply_preset-Duty, apply_skill_pack-Duty,
  installs_pack, is_some,
}
use webhook_listener.Skills.Panel.Forms.{
  Event, choose_type, type_classify, type_transform, press_pack, press_copy, press_preset,
  press_create, press_cancel, toggle_all, press_rerun, press_classify, press_transform, type_new,
  type_edit, press_card, press_edit, press_save, toggle_event, skill_fields,
}
use webhook_listener.Skills.Panel.Cards.{
  cards_panel, listener_card, skill_card, skill_details, editing_form,
}
use webhook_listener.Skills.Panel.Messages.{messages_panel, message_row, bench_panel}
use webhook_listener.Skills.Panel.{
  Effect, on_options, on_prefetch, on_selection, on_events, skills_view, skills_tab, on_event,
  target_panel, bootstrap_panel, new_skill_panel,
}

or-left : (a b : Bool) → (a || b) ≡ false → a ≡ false
or-left true b h = h
or-left false b h = refl

-- The buttons that install skills wait for the flag.
abbrev Needs : State → Event → Type 0
Needs s press_preset = busy s ≡ false
Needs s (press_pack pack) = busy s ≡ false
Needs s m = Unit

module _ ⦃js : Engine⦄ where
  -- The buttons that install skills, when they do.
  abbrev pub installs : List ListenerOption → State → Event → Bool
  installs options s press_preset = is_some (selected_listener options s.selected_type_key)
  installs options s (press_pack pack) =
      installs_pack s.selected_type_key (selected_listener options s.selected_type_key) pack
  installs options s m = false

  module _ (options : List ListenerOption) (refresh : Act State Unit)
      (refresh_quiet : Quiet busy refresh) where
    on_event-Duty :
        (s : State) (m : Event)
        → Needs s m
        → Duty busy (installs options s m) s (on_event options refresh s m)
    unfolding on_event Quiet begin_edit_skill cancel_edit_skill toggle_event_selection
        toggle_all_visible_events
    on_event-Duty s press_preset h =
        apply_preset-Duty s s.selected_type_key (selected_listener options s.selected_type_key)
          refresh refresh_quiet h
    on_event-Duty s (press_pack pack) h =
        apply_skill_pack-Duty s s.selected_type_key (selected_listener options s.selected_type_key)
          pack h
    on_event-Duty s press_copy h = (copy_text-Quiet "selected-type-key")
    on_event-Duty s press_create h = (create_skill-Quiet s)
    on_event-Duty s (press_save key id) h = (save_skill-Quiet s key id)
    on_event-Duty s press_rerun h = (rerun_selected_events-Quiet s)
    on_event-Duty s press_classify h = (run_classify-Quiet s.classify_payload)
    on_event-Duty s press_transform h =
        (run_transform-Quiet s.selected_type_key s.transform_payload)
    on_event-Duty s press_cancel h = ((λ t. refl), tt)
    on_event-Duty s toggle_all h = ((λ t. refl), tt)
    on_event-Duty s (toggle_event id) h = ((λ t. refl), tt)
    on_event-Duty s (choose_type v) h = ((λ t. refl), tt)
    on_event-Duty s (type_classify v) h = ((λ t. refl), tt)
    on_event-Duty s (type_transform v) h = ((λ t. refl), tt)
    on_event-Duty s (type_new field v) h = ((λ t. refl), tt)
    on_event-Duty s (type_edit field v) h = ((λ t. refl), tt)
    on_event-Duty s (press_card id) h = ((λ t. refl), tt)
    on_event-Duty s (press_edit key skill) h = ((λ t. refl), tt)

  module _ (local_time : Value → String) (copied : String) where
    skill_card-Safe :
        (s : State) (key skill : Value) → Safe (Needs s) (skill_card local_time s key skill)
    unfolding skill_card skill_details editing_form skill_fields
    skill_card-Safe s key skill = search (safe_rules, tt) depth 40

    cards_panel-Safe :
        (options : List ListenerOption) (s : State)
        → Safe (Needs s) (cards_panel local_time options s)
    unfolding cards_panel listener_card
    cards_panel-Safe options s = search (safe_rules, skill_card-Safe s) depth 40

    messages_panel-Safe : (s : State) → Safe (Needs s) (messages_panel local_time s)
    unfolding messages_panel message_row
    messages_panel-Safe s = search (safe_rules, tt) depth 40

    bootstrap_panel-Safe :
        (options : List ListenerOption) (s : State) → Safe (Needs s) (bootstrap_panel options s)
    unfolding bootstrap_panel
    bootstrap_panel-Safe options s = search (safe_rules, or-left) depth 40

    skills_view-Safe :
        (options : List ListenerOption) (s : State)
        → Safe (Needs s) (skills_view local_time copied options s)
    unfolding skills_view target_panel new_skill_panel bench_panel skill_fields
    skills_view-Safe options s =
        search
          (
            safe_rules,
            cards_panel-Safe options s,
            messages_panel-Safe s,
            bootstrap_panel-Safe options s,
            tt,
          )
          depth 40

  Effect-Quiet : (s : State) (a : Act State Unit) → Effect s a → Quiet busy a
  unfolding Quiet
  Effect-Quiet s a (on_options options) = (sync_selection-keeps options, tt)
  Effect-Quiet s a (on_prefetch options) = prefetch_skills-Quiet options s.selected_type_key
  Effect-Quiet s a on_selection = load_skills-Quiet s.selected_type_key
  Effect-Quiet s a on_events = load_recent_events-Quiet s.selected_type_key

  module _ (local_time : Value → String) (copied : String) (options : List ListenerOption)
      (refresh : Act State Unit) (refresh_quiet : Quiet busy refresh) where
    abbrev tab : Component State Event
    tab = skills_tab local_time copied options refresh

    skills-Guarded : Guarded busy tab (installs options)
    unfolding skills_tab
    skills-Guarded = record {
      down = refl;
      opens = (
        Effect-Quiet tab.start _ (on_options options),
        (
          Effect-Quiet tab.start _ (on_prefetch options),
          (Effect-Quiet tab.start _ on_selection, (Effect-Quiet tab.start _ on_events, tt)),
        ),
      );
      clicks = λ s m o.
          on_event-Duty options refresh refresh_quiet s m
            (Safe-Offers (skills_view-Safe local_time copied options s) o);
      effects = Effect-Quiet;
    }

    -- If refreshing the listeners leaves the mark alone: in every state that the tab can
    -- reach, by any sequence of clicks, replies and answers, a press that installs the
    -- preset or a pack is offered only while the mark of the four buttons is down, the
    -- installation puts the mark up first, and takes it down when it neither sends nor waits
    -- any more; no other control and no effect ever touches the mark; so at most one
    -- installation is under way, the mark is up exactly while one waits, and it comes down,
    -- whatever the handlers wait for.
    pub skills-IsSingle : (t : Stage State) → Reach tab t → Exclusive busy tab (installs options) t
    skills-IsSingle t r = Reach-Exclusive busy tab (installs options) skills-Guarded t r
