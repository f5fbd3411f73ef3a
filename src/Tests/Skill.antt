-- ===== src/Tests/Skill.antt =====
-- States and runs of the skills tab.
use webhook_listener.Skills.Events.{selected_visible, is_selected, rerun_selected_events}
use webhook_listener.Js.Dict.{get, get_or}
use webhook_listener.Async.{waiting, exec}
use webhook_listener.Prelude.{true, ◌≡◌, refl, false, [], ◌∷◌, map, ◌++◌, All, some, none}
use webhook_listener.Skills.Rerun.{rerun_request, rerun_selected_events-sends_all}
use webhook_listener.Skills.Missing.{to_create-once, installed}
use webhook_listener.Skills.Stale.{save_skill-overwrites}
use webhook_listener.Tests.{sample_engine, row, row_text, answered, world, row_reply}
use webhook_listener.Js.Value.{to_text, Value, str, prop, obj, field, end}
use webhook_listener.Skills.State.{State, skills_of, initial, default_skill_form}
use webhook_listener.Skills.Editing.{replace_skill, save_skill}
use webhook_listener.Skills.Install.{to_create}
use webhook_listener.Skills.Packs.{PackSkill, whatsapp}
use webhook_listener.Async.Steps.{Settled}

abbrev captured : State
captured = record (initial []) {
  selected_type_key = str "github";
  editing_skill_form = some default_skill_form;
  recent_events = row ∷ [];
}

abbrev keyed : PackSkill → Value
keyed s = obj (field "skill_key" (str s.skill_key) end)

to_create-once_example :
    All (λ skill. installed [] skill ≡ false) (to_create whatsapp [])
    × (to_create whatsapp (map keyed (to_create whatsapp []) ++ []) ≡ [])
to_create-once_example = to_create-once whatsapp [] keyed (λ s. unfold prop in refl)

save_skill-overwrites_example :
    Settled
      (λ w'.
        (skills_of (str "github") w'.ui.all_skills_by_type
          ≡ replace_skill (str "7") row (skills_of (str "github") captured.all_skills_by_type))
        × (w'.ui.saving_skill ≡ false)
        × (w'.ui.editing_skill_form ≡ none))
      (exec
        (save_skill captured (str "github") (str "7"))
        ((answered {S = State} 200 row_text) ∷ [])
        (world (initial [])))
save_skill-overwrites_example =
    save_skill-overwrites captured (str "github") (str "7") default_skill_form
      (answered 200 row_text) [] (world (initial [])) row refl row_reply

abbrev chosen : State
chosen = record (initial []) { recent_events = row ∷ []; selected_event_ids = ("7", true) ∷ [] }

rerun_selected_events-sends_all_example :
    exec (rerun_selected_events chosen) [] (world chosen)
    ≡ waiting (record {
      ui = record chosen { rerun_busy = true; rerun_notice = "" };
      sent = [] ++ map rerun_request (str "7" ∷ []);
    })
unfolding selected_visible is_selected get_or get to_text prop
rerun_selected_events-sends_all_example =
    rerun_selected_events-sends_all chosen (world chosen) (str "7") [] refl
