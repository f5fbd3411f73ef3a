-- ===== src/Skills/State.antt =====
-- The state of the skills tab, and what it derives from the listeners.
use webhook_listener.Prelude.{
  ℕ, Bool, true, false, String, List, [], ◌∷◌, Option, none, some, map, if◌then◌else◌, find,
}
use webhook_listener.Js.Value.{
  Value, undefined, str, num, bool, obj, end, field, prop, truthy, strict_eq, to_text, ◌or◌, ◌⧺◌,
}
use webhook_listener.Js.Dict.{Dict, get_or}
use webhook_listener.Js.Engine.{Engine}
use webhook_listener.Profile.{infer_type_key}

pub record SkillForm : Type 0 where
  pub skill_key : Value
  pub skill_prompt : Value
  pub match_contains : Value
  pub forced_action : Value
  pub memory_write_mode : Value
  pub priority : Value
  pub enabled : Value

pub record State : Type 0 where
  pub selected_type_key : Value
  pub skills : List Value
  pub loading_skills : Bool
  pub all_skills_by_type : Dict (List Value)
  pub skill_counts : Dict ℕ
  pub expanded_skill_card : String
  pub editing_skill_id : Value
  pub editing_skill_form : Option SkillForm
  pub saving_skill : Bool
  pub skill_form : SkillForm
  pub skill_notice : String
  pub preset_busy : Bool
  pub classify_payload : String
  pub classify_result : String
  pub transform_payload : String
  pub transform_result : String
  pub test_busy : Bool
  pub recent_events : List Value
  pub loading_recent_events : Bool
  pub selected_event_ids : Dict Bool
  pub rerun_busy : Bool
  pub rerun_notice : String

abbrev pub default_skill_form : SkillForm
default_skill_form = record {
  skill_key = str "";
  skill_prompt = str "";
  match_contains = str "";
  forced_action = str "store_mysql";
  memory_write_mode = str "update_or_insert";
  priority = num "100";
  enabled = bool true;
}

abbrev pub sample_payload : String
sample_payload = "{\"provider\":\"github\",\"event\":\"push\",\"repository\":\"agenthook\"}"

-- One option of the selector: a listener with its label and its type key.
pub record ListenerOption : Type 0 where
  pub label : Value
  pub value : Value
  pub listener : Value

unfoldable pub listener_option : Value → ListenerOption
listener_option listener = record {
  label =
      prop "listener_display_name" listener
      or str (to_text (prop "provider" listener) ⧺ " · " ⧺ to_text (prop "listener_id" listener));
  value = infer_type_key listener;
  listener = listener;
}

unfoldable pub listener_options : List Value → List ListenerOption
unfolding listener_option
listener_options listeners = map listener_option listeners

abbrev pub first_value : List ListenerOption → Value
first_value [] = undefined
first_value (o ∷ os) = o.value

-- The state that `useState` starts from.
abbrev pub initial : List ListenerOption → State
initial options = record {
  selected_type_key = first_value options or str "";
  skills = [];
  loading_skills = false;
  all_skills_by_type = [];
  skill_counts = [];
  expanded_skill_card = "";
  editing_skill_id = str "";
  editing_skill_form = none;
  saving_skill = false;
  skill_form = default_skill_form;
  skill_notice = "";
  preset_busy = false;
  classify_payload = sample_payload;
  classify_result = "";
  transform_payload = sample_payload;
  transform_result = "";
  test_busy = false;
  recent_events = [];
  loading_recent_events = false;
  selected_event_ids = [];
  rerun_busy = false;
  rerun_notice = "";
}

-- listenerOptions.find((item) => item.value === selectedTypeKey)?.listener || null
unfoldable pub selected_listener : List ListenerOption → Value → Option Value
selected_listener options key = elim (find (λ o. strict_eq o.value key) options) [
  | none ↦ none
  | some o ↦ if truthy o.listener then some o.listener else none
]

-- allSkillsByType[typeKey] || []
abbrev pub skills_of : Value → Dict (List Value) → List Value
skills_of key all = get_or (to_text key) [] all

module _ ⦃js : Engine⦄ where
  -- Number(priority) || 100
  abbrev pub priority_of : Value → Value
  priority_of priority = num (js.number priority) or num "100"

  -- { type_key, ...form, priority: Number(form.priority) || 100 }
  abbrev pub skill_body : Value → SkillForm → Value
  skill_body key form = obj (
      field "type_key" key (
        field "skill_key" form.skill_key (
          field "skill_prompt" form.skill_prompt (
            field "match_contains" form.match_contains (
              field "forced_action" form.forced_action (
                field "memory_write_mode" form.memory_write_mode (
                  field "priority" (priority_of form.priority)
                    (field "enabled" form.enabled end))))))))
