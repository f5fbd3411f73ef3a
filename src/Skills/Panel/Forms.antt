-- ===== src/Skills/Panel/Forms.antt =====
-- web/src/App.jsx, `SkillsTab`: the events of the tab, and the fields of a skill.
use webhook_listener.Prelude.{String, ◌==◌, List, [], ◌∷◌, Option, none, some}
use webhook_listener.Js.Value.{Value, undefined, str, bool, to_text}
use webhook_listener.View.{View, ◌&◌, input, select, option, each}
use webhook_listener.View.Parts.{form_field, hinted_field}
use webhook_listener.Urls.Panel.{forced_action_options}
use webhook_listener.Skills.State.{SkillForm}

-- The fields of a skill, with what `onChange` writes into each.
pub data Field : Type 0 where
  skill_key skill_prompt match_contains forced_action memory_write_mode priority enabled : Field

-- { ...current, [field]: e.target.value }
unfoldable pub edited : Field → String → SkillForm → SkillForm
edited skill_key v form = record form { skill_key = str v }
edited skill_prompt v form = record form { skill_prompt = str v }
edited match_contains v form = record form { match_contains = str v }
edited forced_action v form = record form { forced_action = str v }
edited memory_write_mode v form = record form { memory_write_mode = str v }
edited priority v form = record form { priority = str v }
edited enabled v form = record form { enabled = bool (v == "true") }

-- { ...null }
abbrev pub no_form : SkillForm
no_form = record {
  skill_key = undefined;
  skill_prompt = undefined;
  match_contains = undefined;
  forced_action = undefined;
  memory_write_mode = undefined;
  priority = undefined;
  enabled = undefined;
}

abbrev pub form_or_none : Option SkillForm → SkillForm
form_or_none none = no_form
form_or_none (some form) = form

pub data Event : Type 0 where
  choose_type type_classify type_transform press_pack : String → Event
  press_copy press_preset press_create press_cancel : Event
  toggle_all press_rerun press_classify press_transform : Event
  type_new type_edit : Field → String → Event
  press_card : (card_id : String) → Event
  press_edit press_save : (type_key skill : Value) → Event
  toggle_event : Value → Event

abbrev pub memory_write_modes : List String
memory_write_modes = "update_or_insert" ∷ "insert_only" ∷ "disabled" ∷ []

abbrev options_of : List String → View Event
options_of items = each items (λ item. option (str item) (str item))

-- The fields of a skill, in the order of both forms. Only the form of a new skill has hints.
unfoldable pub skill_fields :
    (key_hint match_hint : String) → (Field → String → Event) → SkillForm → View Event
skill_fields key_hint match_hint change form =
    hinted_field "Skill Key" (input form.skill_key (change skill_key)) key_hint
    & form_field "Skill Prompt" (input form.skill_prompt (change skill_prompt))
    & hinted_field "Match Contains" (input form.match_contains (change match_contains)) match_hint
    & form_field "Forced Action"
        (select form.forced_action (options_of forced_action_options) (change forced_action))
    & form_field "Memory Write Mode"
        (select form.memory_write_mode (options_of memory_write_modes) (change memory_write_mode))
    & form_field "Priority" (input form.priority (change priority))
    & form_field "Enabled" (
        select (str (to_text form.enabled))
          (option (str "true") (str "Enabled") & option (str "false") (str "Disabled"))
          (change enabled))
