-- ===== src/Skills/Panel/Cards.antt =====
-- web/src/App.jsx, `SkillsTab`: the skills of every listener.
use webhook_listener.Skills.Panel.Forms.{
  press_cancel, press_save, press_card, type_edit, press_edit, Event, skill_fields, form_or_none,
}
use webhook_listener.Prelude.{
  Bool, true, false, not, ◌&&◌, String, ◌==◌, List, none, some, map, any, length, nat_eq,
  if◌then◌else◌,
}
use webhook_listener.Js.Value.{Value, str, prop, truthy, strict_eq, to_text, ◌or◌, ◌⧺◌}
use webhook_listener.Js.Decimal.{show}
use webhook_listener.Js.Dict.{Dict}
use webhook_listener.View.{View, nothing, ◌&◌, text, value, button, shown_if, either, each, is_nil}
use webhook_listener.View.Parts.{panel, status_badge}
use webhook_listener.Skills.State.{State, ListenerOption, skills_of}

pub record ListenerCard : Type 0 where
  pub option : ListenerOption
  pub skills : List Value

unfoldable pub listener_cards : List ListenerOption → Dict (List Value) → List ListenerCard
listener_cards options all =
    map (λ o. record { option = o; skills = skills_of o.value all }) options

-- editingSkillID === skill.id && editingSkillForm
abbrev pub is_editing : State → Value → Bool
is_editing s skill =
    strict_eq s.editing_skill_id (prop "id" skill)
    && elim s.editing_skill_form [ none ↦ false | some form ↦ true ]

abbrev pub card_id : Value → Value → String
card_id type_key skill = to_text type_key ⧺ ":" ⧺ to_text (prop "id" skill)

-- count === 1 ? '' : 's'
abbrev pub plural : List Value → String
plural items = if nat_eq (length items) 1 then "" else "s"

module _ (local_time : Value → String) where
  unfoldable pub skill_details : Value → Value → View Event
  skill_details type_key skill =
      let created = prop "created_at" skill in
      value (prop "skill_prompt" skill or str "No prompt text saved.")
      & text "Type key: "
      & value type_key
      & text "Memory write mode: "
      & value (prop "memory_write_mode" skill or str "default")
      & text ("Created: " ⧺ (if truthy created then local_time created else "Unknown"))
      & button "Edit Skill" false (press_edit type_key skill)

  unfoldable pub editing_form : State → Value → Value → View Event
  unfolding skill_fields
  editing_form s type_key skill =
      skill_fields "" "" type_edit (form_or_none s.editing_skill_form)
      & button (if s.saving_skill then "Saving..." else "Save") s.saving_skill
          (press_save type_key (prop "id" skill))
      & button "Cancel" false press_cancel

  -- The card itself is pressed by a click or by a key.
  unfoldable pub skill_card : State → Value → Value → View Event
  unfolding skill_details editing_form
  skill_card s type_key skill =
      button "" false (press_card (card_id type_key skill))
      & value (prop "skill_key" skill)
      & text (
          to_text (prop "match_contains" skill or str "matches all")
          ⧺ " · action "
          ⧺ to_text (prop "forced_action" skill or str "auto")
          ⧺ " · priority ")
      & value (prop "priority" skill)
      & status_badge (str (if truthy (prop "enabled" skill) then "ACTIVE" else "LEARNING"))
      & shown_if (s.expanded_skill_card == card_id type_key skill) (
          either (is_editing s skill) (editing_form s type_key skill)
            (skill_details type_key skill))

  unfoldable pub listener_card : State → ListenerCard → View Event
  unfolding skill_card
  listener_card s card =
      value card.option.label
      & text (show (length card.skills) ⧺ " saved skill" ⧺ plural card.skills)
      & shown_if (strict_eq card.option.value s.selected_type_key) (status_badge (str "ACTIVE"))
      & each card.skills (skill_card s card.option.value)
      & shown_if (is_nil card.skills) (text "No skills saved for this listener yet.")

  unfoldable pub cards_panel : List ListenerOption → State → View Event
  unfolding listener_card listener_cards
  cards_panel options s =
      let cards = listener_cards options s.all_skills_by_type in
      panel "All Skills"
        "Every listener's saved skills are shown below. Click a card to expand the full rule."
        nothing
        (each cards (listener_card s)
          & shown_if (not (any (λ card. not (is_nil card.skills)) cards) && not s.loading_skills)
              (text "No skills exist for this account yet. Use the preset or create one manually."))
