-- ===== src/Skills/Panel.antt =====
-- web/src/App.jsx, `SkillsTab`: what the tab shows, and what its controls do.
pub mod Forms
pub mod Cards
pub mod Messages
use webhook_listener.Skills.Panel.Forms.{
  type_classify, toggle_event, press_save, type_edit, press_edit, press_card, press_create,
  press_pack, press_copy, type_new, press_preset, choose_type, Event, press_cancel, toggle_all,
  press_rerun, type_transform, press_classify, press_transform, Field, edited, form_or_none,
  skill_fields,
}
use webhook_listener.Prelude.{
  ℕ, Bool, true, false, not, ◌&&◌, ◌||◌, String, ◌==◌, List, [], ◌∷◌, Option, none, some, any, ltb,
  nat_eq, if◌then◌else◌,
}
use webhook_listener.Js.Value.{Value, str, to_text, ◌⧺◌}
use webhook_listener.Js.Decimal.{show}
use webhook_listener.Js.Dict.{Dict, get, get_or}
use webhook_listener.Js.Engine.{Engine}
use webhook_listener.Async.{Act}
use webhook_listener.Async.Stage.{Component}
use webhook_listener.Async.Steps.{set_state}
use webhook_listener.View.{
  View, nothing, ◌&◌, text, value, button, select, option, shown_if, either, each, is_nil,
}
use webhook_listener.View.Parts.{panel, form_field, inline_notice, copy_button, copy_text}
use webhook_listener.Skills.State.{State, ListenerOption, initial, selected_listener}
use webhook_listener.Skills.Effects.{
  sync_selection, prefetch_skills, load_skills, load_recent_events,
}
use webhook_listener.Skills.Editing.{begin_edit_skill, cancel_edit_skill, create_skill, save_skill}
use webhook_listener.Skills.Install.{apply_preset, apply_skill_pack}
use webhook_listener.Skills.Events.{
  toggle_event_selection, toggle_all_visible_events, rerun_selected_events,
}
use webhook_listener.Skills.Bench.{run_classify, run_transform}
use webhook_listener.Skills.Panel.Cards.{cards_panel}
use webhook_listener.Skills.Panel.Messages.{messages_panel, bench_panel}

abbrev pub is_none : Option Value → Bool
is_none none = true
is_none (some v) = false

-- Object.values(skillCounts).some((count) => count > 0) && skillCounts[selectedTypeKey] === 0
unfoldable pub selection_is_empty : State → Bool
selection_is_empty s =
    any (λ entry. ltb 0 entry.1) s.skill_counts
    && elim (get (to_text s.selected_type_key) s.skill_counts) [
      | none ↦ false
      | some count ↦ nat_eq count 0
    ]

abbrev pub option_label : Dict ℕ → ListenerOption → Value
option_label counts o =
    let count = get_or (to_text o.value) 0 counts in
    if ltb 0 count then str (to_text o.label ⧺ " (" ⧺ show count ⧺ " skills)") else o.label

unfoldable pub target_panel : String → List ListenerOption → State → View Event
unfolding selected_listener
target_panel copied options s =
    panel "Skill Target"
      "Pick the webhook type you want to enrich with prompt-based routing or provider-specific handling."
      nothing
      (form_field "Listener / Type" (
          select s.selected_type_key
            (each options (λ o. option o.value (option_label s.skill_counts o))) choose_type)
        & shown_if (not (is_none (selected_listener options s.selected_type_key)))
            (value s.selected_type_key & copy_button copied "selected-type-key" press_copy))

unfoldable pub bootstrap_panel : List ListenerOption → State → View Event
unfolding selected_listener
bootstrap_panel options s =
    let off = s.preset_busy || is_none (selected_listener options s.selected_type_key) in
    panel "Bootstrap Provider Skills"
      "Create a sensible baseline automatically, then layer in channel-specific packs like WhatsApp, email, or GetApproval."
      nothing
      (shown_if (not (s.skill_notice == "")) (inline_notice s.skill_notice)
        & button (if s.preset_busy then "APPLYING..." else "APPLY WEBHOOK PROCESSING PRESET") off
            press_preset
        & button (if s.preset_busy then "APPLYING..." else "CREATE WHATSAPP SKILLS") off
            (press_pack "whatsapp")
        & button (if s.preset_busy then "APPLYING..." else "CREATE EMAIL SKILLS") off
            (press_pack "email")
        & button (if s.preset_busy then "APPLYING..." else "CREATE GETAPPROVAL SKILLS") off
            (press_pack "gate"))

unfoldable pub new_skill_panel : State → View Event
unfolding skill_fields
new_skill_panel s =
    panel "Create Skill"
      "Attach a prompt, a match rule, and a forced action to a specific webhook type." nothing
      (skill_fields "Use a stable identifier like github-priority-triage."
          "Optional substring check before this skill becomes relevant." type_new s.skill_form
        & button "CREATE SKILL" false press_create)

module _ ⦃js : Engine⦄ (local_time : Value → String) (copied : String) where
  unfoldable pub skills_view : List ListenerOption → State → View Event
  unfolding target_panel bootstrap_panel new_skill_panel selection_is_empty cards_panel
      messages_panel bench_panel
  skills_view options s =
      text "Skills"
      & either (is_nil options)
          (panel "No listener selected yet"
            "Create a listener first. Skills are attached per webhook type, so the UI needs at least one listener to target."
            nothing
            (inline_notice
              "Open the URLs tab, create a listener, then come back here to attach routing skills and test payload behavior."))
          (target_panel copied options s
            & shown_if (selection_is_empty s) (
                inline_notice
                  "This listener has no saved skills. The selector above highlights listeners that already do.")
            & bootstrap_panel options s
            & new_skill_panel s
            & cards_panel local_time options s
            & messages_panel local_time s
            & bench_panel s)

module _ ⦃js : Engine⦄ (options : List ListenerOption) (refresh : Act State Unit) where
  unfoldable pub on_event : State → Event → Act State Unit
  unfolding edited
  on_event s (choose_type v) = set_state (λ t. record t { selected_type_key = str v })
  on_event s press_copy = copy_text (λ k t. t) "selected-type-key"
  on_event s press_preset =
      apply_preset s.selected_type_key (selected_listener options s.selected_type_key) refresh
  on_event s (press_pack pack) =
      apply_skill_pack s.selected_type_key (selected_listener options s.selected_type_key) pack
  on_event s (type_new field v) =
      set_state (λ t. record t { skill_form = edited field v t.skill_form })
  on_event s press_create = create_skill s
  on_event s (press_card id) =
      set_state
        (λ t. record t { expanded_skill_card = if t.expanded_skill_card == id then "" else id })
  on_event s (press_edit key skill) = set_state (begin_edit_skill key skill)
  on_event s (type_edit field v) = set_state (λ t. record t {
    editing_skill_form = some (edited field v (form_or_none t.editing_skill_form));
  })
  on_event s (press_save key id) = save_skill s key id
  on_event s press_cancel = set_state cancel_edit_skill
  on_event s toggle_all = set_state (toggle_all_visible_events s)
  on_event s press_rerun = rerun_selected_events s
  on_event s (toggle_event id) = set_state (toggle_event_selection id)
  on_event s (type_classify v) = set_state (λ t. record t { classify_payload = v })
  on_event s press_classify = run_classify s.classify_payload
  on_event s (type_transform v) = set_state (λ t. record t { transform_payload = v })
  on_event s press_transform = run_transform s.selected_type_key s.transform_payload

-- The effects that follow the listeners and the selection.
pub data Effect ⦃js : Engine⦄ (s : State) : Act State Unit → Type 0 where
  on_options : (options : List ListenerOption) → Effect s (set_state (sync_selection options))
  on_prefetch :
      (options : List ListenerOption) → Effect s (prefetch_skills options s.selected_type_key)
  on_selection : Effect s (load_skills s.selected_type_key)
  on_events : Effect s (load_recent_events s.selected_type_key)

module _ ⦃js : Engine⦄ where
  unfoldable pub skills_tab :
      (Value → String) → String → List ListenerOption → Act State Unit → Component State Event
  skills_tab local_time copied options refresh =
      let s = initial options in
      record {
        start = s;
        opening =
            set_state (sync_selection options)
            ∷ prefetch_skills options s.selected_type_key
            ∷ load_skills s.selected_type_key
            ∷ load_recent_events s.selected_type_key
            ∷ [];
        view = skills_view local_time copied options;
        on = on_event options refresh;
        effect = Effect;
      }
