-- ===== src/Skills/Editing.antt =====
-- Creating, editing and saving one skill.
use webhook_listener.Prelude.{
  ◌+◌, true, false, not, String, List, ◌∷◌, none, some, map, length, if◌then◌else◌,
}
use webhook_listener.Js.Value.{Value, str, num, prop, truthy, strict_eq, to_text, ◌or◌, ◌⧺◌}
use webhook_listener.Js.Dict.{get_or, put}
use webhook_listener.Js.Engine.{Engine}
use webhook_listener.Async.{Act, ◌>>=◌, ◌>>◌, catch, finally}
use webhook_listener.Async.Steps.{set_state, skip}
use webhook_listener.Api.{api_request, with_body}
use webhook_listener.Skills.State.{State, SkillForm, skills_of, skill_body}

abbrev pub set_skill_notice : String → State → State
set_skill_notice text s = record s { skill_notice = text }

-- What `createSkill` makes of the state once the server has made the skill: each setter works on the
-- state as it is then.
unfoldable pub add_created : Value → Value → State → State
add_created key created s = record s {
  skills = created ∷ s.skills;
  all_skills_by_type =
      put (to_text key) (created ∷ skills_of key s.all_skills_by_type) s.all_skills_by_type;
  skill_counts = put (to_text key) (get_or (to_text key) 0 s.skill_counts + 1) s.skill_counts;
  skill_form = record s.skill_form {
    skill_key = str "";
    skill_prompt = str "";
    match_contains = str "";
  };
  skill_notice = "Skill created successfully.";
}

unfoldable pub begin_edit_skill : Value → Value → State → State
begin_edit_skill key skill s = record s {
  expanded_skill_card = to_text key ⧺ ":" ⧺ to_text (prop "id" skill);
  editing_skill_id = prop "id" skill;
  editing_skill_form = some (record {
    skill_key = prop "skill_key" skill;
    skill_prompt = prop "skill_prompt" skill;
    match_contains = prop "match_contains" skill;
    forced_action = prop "forced_action" skill;
    memory_write_mode = prop "memory_write_mode" skill or str "update_or_insert";
    priority = prop "priority" skill or num "100";
    enabled = prop "enabled" skill;
  });
}

unfoldable pub cancel_edit_skill : State → State
cancel_edit_skill s = record s { editing_skill_id = str ""; editing_skill_form = none }

-- list.map((skill) => (skill.id === skillID ? updated : skill))
abbrev pub replace_skill : Value → Value → List Value → List Value
replace_skill id updated skills =
    map (λ skill. if strict_eq (prop "id" skill) id then updated else skill) skills

-- What `saveSkill` makes of the state: `next` is built from the skills that the handler captured.
unfoldable pub store_saved : Value → Value → List Value → State → State
unfolding cancel_edit_skill
store_saved key selected next s = cancel_edit_skill (record s {
  all_skills_by_type = put (to_text key) next s.all_skills_by_type;
  skills = if strict_eq selected key then next else s.skills;
  skill_counts = put (to_text key) (length next) s.skill_counts;
  skill_notice = "Skill updated successfully.";
})

module _ ⦃js : Engine⦄ where
  -- The state that the handler's closure captured is `captured`.
  unfoldable pub create_skill : State → Act State Unit
  unfolding add_created
  create_skill captured = if not (truthy captured.selected_type_key) then skip else do
    set_state (set_skill_notice "")
    catch
        (do
          created ← api_request "/api/policy/skills" (
              with_body "POST"
                (js.stringify (skill_body captured.selected_type_key captured.skill_form)))
          set_state (add_created captured.selected_type_key created))
        (λ e. set_state (set_skill_notice e))

  save_form : State → Value → Value → SkillForm → Act State Unit
  unfolding store_saved
  save_form captured key id form = do
    set_state (λ s. record s { saving_skill = true })
    set_state (set_skill_notice "")
    finally
        (catch
          (do
            updated ←
                api_request ("/api/policy/skills/" ⧺ to_text id)
                  (with_body "PUT" (js.stringify (skill_body key form)))
            set_state (
                store_saved key captured.selected_type_key
                  (replace_skill id updated (skills_of key captured.all_skills_by_type))))
          (λ e. set_state (set_skill_notice e)))
        (λ s. record s { saving_skill = false })

  unfoldable pub save_skill : State → Value → Value → Act State Unit
  unfolding save_form
  save_skill captured key id = elim captured.editing_skill_form [
    | none ↦ skip
    | some form ↦ save_form captured key id form
  ]
