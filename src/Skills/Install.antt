-- ===== src/Skills/Install.antt =====
-- Installing skills for the selected listener: the general preset, and the packs.
use webhook_listener.Prelude.{
  true, false, not, String, List, [], ◌∷◌, Option, none, some, map, any, filter, length,
  if◌then◌else◌,
}
use webhook_listener.Js.Value.{
  Value, str, obj, end, field, prop, truthy, is_text, is_nullish, to_text, ◌⧺◌,
}
use webhook_listener.Js.Dict.{put}
use webhook_listener.Js.Engine.{Engine}
use webhook_listener.Async.{Act, ◌>>=◌, ◌>>◌, catch, finally, gather}
use webhook_listener.Async.Steps.{set_state, skip, throw_if}
use webhook_listener.Api.{api_request, with_body}
use webhook_listener.Skills.State.{State}
use webhook_listener.Skills.Packs.{Pack, PackSkill, skill_pack, pack_body}
use webhook_listener.Skills.Effects.{fetch_skills_for_type}
use webhook_listener.Skills.Editing.{set_skill_notice}

-- The skills of the selected type, as they were just fetched.
unfoldable pub store_fetched : Value → List Value → String → State → State
store_fetched key fetched notice s = record s {
  skills = fetched;
  all_skills_by_type = put (to_text key) fetched s.all_skills_by_type;
  skill_counts = put (to_text key) (length fetched) s.skill_counts;
  skill_notice = notice;
}

-- The skills of the pack whose keys no existing skill has.
unfoldable pub to_create : Pack → List Value → List PackSkill
to_create pack existing =
    filter (λ skill. not (any (λ old. is_text (prop "skill_key" old) skill.skill_key) existing))
      pack.skills

abbrev pub preset_body : Value → Value
preset_body listener = obj (
    field "provider" (prop "provider" listener) (
      field "listener_id" (prop "listener_id" listener) (
        field "specific_prompt"
          (str (
            "Handle "
            ⧺ to_text (prop "provider" listener)
            ⧺ " webhook messages for "
            ⧺ to_text (prop "listener_id" listener)
            ⧺ " with concise structured summaries."))
          (field "specific_match_contains" (prop "provider" listener) (
            field "specific_action" (str "store_mysql")
              (field "memory_write_mode" (str "update_or_insert") end))))))

module _ ⦃js : Engine⦄ where
  preset_steps : Value → Value → Act State Unit → Act State Unit
  unfolding fetch_skills_for_type store_fetched
  preset_steps key listener refresh = do
    set_state (λ s. record s { preset_busy = true })
    set_state (set_skill_notice "")
    finally
        (catch
          (do
            api_request "/v1/presets/webhook-processing"
                (with_body "POST" (js.stringify (preset_body listener)))
            fetched ← fetch_skills_for_type key true
            set_state (
                store_fetched key fetched
                  "Preset applied. General and provider-specific skills were created.")
            refresh)
          (λ e. set_state (set_skill_notice e)))
        (λ s. record s { preset_busy = false })

  -- `refresh` is the property `onRefreshListeners`.
  unfoldable pub apply_preset : Value → Option Value → Act State Unit → Act State Unit
  unfolding preset_steps
  apply_preset key none refresh = skip
  apply_preset key (some listener) refresh = preset_steps key listener refresh

  create_one : Value → PackSkill → Act State Value
  create_one key skill =
      api_request "/api/policy/skills" (with_body "POST" (js.stringify (pack_body key skill)))

  -- What is left of the pack, once the existing skills are known.
  unfoldable pub create_missing : Value → Value → Pack → List PackSkill → Act State Unit
  unfolding create_one fetch_skills_for_type store_fetched
  create_missing key listener pack [] =
      set_state (set_skill_notice (pack.label ⧺ " is already installed for this listener."))
  create_missing key listener pack (skill ∷ skills) = do
    gather (map (create_one key) (skill ∷ skills))
    fetched ← fetch_skills_for_type key true
    set_state (
        store_fetched key fetched
          (pack.label ⧺ " created for " ⧺ to_text (prop "provider" listener) ⧺ "."))

  install : Value → Value → Pack → Act State Unit
  unfolding create_missing to_create
  install key listener pack = do
    set_state (λ s. record s { preset_busy = true })
    set_state (set_skill_notice "")
    finally
        (catch
          (do
            existing ← fetch_skills_for_type key true
            throw_if (any is_nullish existing) js.type_error
            create_missing key listener pack (to_create pack existing))
          (λ e. set_state (set_skill_notice e)))
        (λ s. record s { preset_busy = false })

  unfoldable pub apply_skill_pack : Value → Option Value → String → Act State Unit
  unfolding install skill_pack
  apply_skill_pack key none pack_key = skip
  apply_skill_pack key (some listener) pack_key =
      if not (truthy key)
      then skip
      else elim (skill_pack pack_key) [ none ↦ skip | some pack ↦ install key listener pack ]
