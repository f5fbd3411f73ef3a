-- ===== src/Skills/Flight.antt =====
-- web/src/App.jsx, `SkillsTab` on the page: skills are installed by one handler at a time.
pub mod Page
use webhook_listener.Async.{pure, Act, ◌>>=◌, ◌>>◌, catch, finally}
use webhook_listener.Prelude.{
  ◌≡◌, refl, Bool, true, false, not, ◌&&◌, ◌||◌, if◌then◌else◌, String, List, [], ◌∷◌, ◌⊎◌, inl,
  inr, arith, All, Option, none, some,
}
use webhook_listener.Js.Value.{Value, truthy}
use webhook_listener.Js.Engine.{Engine}
use webhook_listener.Async.Stage.{Stage, Component, Reach}
use webhook_listener.Async.Flight.{Quiet, Holds, Ends, Takes}
use webhook_listener.Async.Flight.Rest.{Inevitably}
use webhook_listener.Async.Flight.Rules.{quiet_rules, Holds-finally}
use webhook_listener.Async.Flight.Single.{Duty}
use webhook_listener.Api.{api_request}
use webhook_listener.Api.Quiet.{api_request-Quiet}
use webhook_listener.View.Parts.{copy_text}
use webhook_listener.View.Safe.{Safe, Safe-Offers, safe_rules}
use webhook_listener.Skills.State.{State, ListenerOption}
use webhook_listener.Skills.Effects.{
  sync_selection, fetch_skills_for_type, prefetch_skills, load_skills, load_recent_events,
  store_entries, move_selection,
}
use webhook_listener.Skills.Editing.{
  add_created, begin_edit_skill, cancel_edit_skill, create_skill, save_skill, store_saved,
}
use webhook_listener.Skills.Install.{apply_preset, apply_skill_pack, store_fetched, create_missing}
use webhook_listener.Skills.Packs.{Pack, PackSkill, skill_pack}
use webhook_listener.Skills.Events.{
  toggle_event_selection, toggle_all_visible_events, rerun_selected_events,
}
use webhook_listener.Skills.Bench.{run_classify, run_transform}

abbrev pub busy : State → Bool
busy s = s.preset_busy

abbrev is_some {ℓ} : {A : Type ℓ} → Option A → Bool
is_some none = false
is_some (some a) = true

module _ ⦃js : Engine⦄ where
  pub fetch_skills_for_type-Quiet :
      (key : Value) (b : Bool) → Quiet busy (fetch_skills_for_type key b)
  unfolding fetch_skills_for_type
  fetch_skills_for_type-Quiet key b = search (quiet_rules, api_request-Quiet) depth 30

  pub store_entries-keeps :
      (options : List ListenerOption) (key : Value) (entries : List (String × List Value))
      (s : State)
      → busy (store_entries options key entries s) ≡ busy s
  unfolding store_entries move_selection
  store_entries-keeps options key entries s = ground arith

  pub sync_selection-keeps :
      (options : List ListenerOption) (s : State) → busy (sync_selection options s) ≡ busy s
  unfolding sync_selection
  sync_selection-keeps [] s = refl
  sync_selection-keeps (o ∷ os) s = ground arith

  pub prefetch_skills-Quiet :
      (options : List ListenerOption) (key : Value) → Quiet busy (prefetch_skills options key)
  unfolding prefetch_skills
  prefetch_skills-Quiet [] key = search (quiet_rules)
  prefetch_skills-Quiet (o ∷ os) key =
      search (quiet_rules, fetch_skills_for_type-Quiet, store_entries-keeps) depth 30

  pub load_skills-Quiet : (key : Value) → Quiet busy (load_skills key)
  unfolding load_skills
  load_skills-Quiet key = search (quiet_rules, fetch_skills_for_type-Quiet) depth 30

  pub load_recent_events-Quiet : (key : Value) → Quiet busy (load_recent_events key)
  unfolding load_recent_events
  load_recent_events-Quiet key = search (quiet_rules, api_request-Quiet) depth 30

  pub create_skill-Quiet : (s : State) → Quiet busy (create_skill s)
  unfolding create_skill add_created
  create_skill-Quiet s = search (quiet_rules, api_request-Quiet) depth 30

  pub save_skill-Quiet : (s : State) (key id : Value) → Quiet busy (save_skill s key id)
  unfolding save_skill store_saved cancel_edit_skill Quiet ◌>>=◌ catch finally api_request
  save_skill-Quiet s key id = ground arith

  pub run_classify-Quiet : (payload : String) → Quiet busy (run_classify payload)
  unfolding run_classify
  run_classify-Quiet payload = search (quiet_rules, api_request-Quiet) depth 30

  pub run_transform-Quiet :
      (key : Value) (payload : String) → Quiet busy (run_transform key payload)
  unfolding run_transform
  run_transform-Quiet key payload = search (quiet_rules, api_request-Quiet) depth 30

  pub rerun_selected_events-Quiet : (s : State) → Quiet busy (rerun_selected_events s)
  unfolding rerun_selected_events
  rerun_selected_events-Quiet s = search (quiet_rules, api_request-Quiet) depth 30

  pub copy_text-Quiet : (key : String) → Quiet busy (copy_text (λ k t. t) key)
  unfolding copy_text Quiet ◌>>=◌
  copy_text-Quiet key = ground arith

  pub create_missing-Quiet :
      (key listener : Value) (pack : Pack) (skills : List PackSkill)
      → Quiet busy (create_missing key listener pack skills)
  unfolding create_missing store_fetched
  create_missing-Quiet key listener pack [] = search (quiet_rules)
  create_missing-Quiet key listener pack (skill ∷ skills) =
      search (quiet_rules, fetch_skills_for_type-Quiet, api_request-Quiet) depth 30

  -- A preset is installed if a listener of the type is selected.
  pub apply_preset-Duty :
      (s : State) (key : Value) (listener : Option Value) (refresh : Act State Unit)
      → Quiet busy refresh
      → busy s ≡ false
      → Duty busy (is_some listener) s (apply_preset key listener refresh)
  unfolding apply_preset Takes Holds Ends Quiet ◌>>=◌
  apply_preset-Duty s key none refresh refresh_quiet h = tt
  apply_preset-Duty s key (some listener) refresh refresh_quiet h = (
    h,
    (
      (λ t. refl),
      inl (
        (λ t. refl),
        Holds-finally busy _ _
            (search (quiet_rules, refresh_quiet, fetch_skills_for_type-Quiet, api_request-Quiet)
              depth 30)
            (λ t. refl),
      ),
    ),
  )

  -- A pack is installed if, besides, the key of the type is there and the pack is known.
  abbrev pub installs_pack : Value → Option Value → String → Bool
  installs_pack key listener pack = is_some listener && (truthy key && is_some (skill_pack pack))

  known_pack-Duty :
      (s : State) (b : Bool) (p : Option Pack) (f : Pack → Act State Unit)
      → busy s ≡ false
      → ((q : Pack) → Takes busy (f q))
      → Duty busy
          (b && is_some p)
          s
          (if not b then pure tt else elim p [ none ↦ pure tt | some q ↦ f q ])
  unfolding Quiet
  known_pack-Duty s false p f h k = tt
  known_pack-Duty s true none f h k = tt
  known_pack-Duty s true (some q) f h k = (h, k q)

  pub apply_skill_pack-Duty :
      (s : State) (key : Value) (listener : Option Value) (pack : String)
      → busy s ≡ false
      → Duty busy (installs_pack key listener pack) s (apply_skill_pack key listener pack)
  unfolding apply_skill_pack Takes Holds Ends Quiet ◌>>=◌
  apply_skill_pack-Duty s key none pack h = tt
  apply_skill_pack-Duty s key (some listener) pack h =
      known_pack-Duty s (truthy key) (skill_pack pack) _ h (λ p. (
        (λ t. refl),
        inl (
          (λ t. refl),
          Holds-finally busy _ _
              (search (quiet_rules, fetch_skills_for_type-Quiet, create_missing-Quiet) depth 30)
              (λ t. refl),
        ),
      ))
