-- ===== src/Skills/Stale.antt =====
-- Which lists of skills saving and creating a skill start from.
use webhook_listener.Prelude.{◌≡◌, true, false, eq_refl, List, ◌∷◌, none, some, arith}
use webhook_listener.Js.Value.{Value, truthy, to_text}
use webhook_listener.Js.Dict.{put, get_or-put}
use webhook_listener.Js.Engine.{Engine}
use webhook_listener.Async.{exec, World, Turn, ok, ◌>>=◌, catch, finally}
use webhook_listener.Async.Steps.{Settled}
use webhook_listener.Api.{api_request, reply_result}
use webhook_listener.Skills.State.{State, SkillForm, skills_of}
use webhook_listener.Skills.Editing.{replace_skill, create_skill, save_skill}

skills_of-put :
    (key : Value) (xs : List Value) (s : State)
    → skills_of key (put (to_text key) xs s.all_skills_by_type) ≡ xs
skills_of-put key xs s = rw (get_or-put, eq_refl)

module _ ⦃js : Engine⦄ where
  -- A created skill, if a type is selected and the server accepts it, is put before the skills that
  -- the type has when the server answers: what other handlers did during the wait is kept.
  pub create_skill-keeps :
      (captured : State) (t : Turn State) (ts : List (Turn State)) (w : World State)
      (created : Value)
      → truthy captured.selected_type_key ≡ true
      → reply_result t.reply ≡ ok created
      → Settled
          (λ w'.
            skills_of captured.selected_type_key w'.ui.all_skills_by_type
            ≡ created
              ∷ skills_of captured.selected_type_key
                  (t.meanwhile (record w.ui { skill_notice = "" })).all_skills_by_type)
          (exec (create_skill captured) (t ∷ ts) w)
  unfolding create_skill exec ◌>>=◌ catch finally api_request
  create_skill-keeps captured t ts w created h e =
      let waited = t.meanwhile (record w.ui { skill_notice = "" }) in
      let key = captured.selected_type_key in
      ground (arith, skills_of-put key (created ∷ skills_of key waited.all_skills_by_type) waited)

  -- A saved skill, if a form was open and the server accepts it, is written into the skills that
  -- the render knew: whatever the type's skills have become during the wait, a skill created
  -- meanwhile included, is lost.
  pub save_skill-overwrites :
      (captured : State) (key id : Value) (form : SkillForm) (t : Turn State)
      (ts : List (Turn State)) (w : World State) (updated : Value)
      → captured.editing_skill_form ≡ some form
      → reply_result t.reply ≡ ok updated
      → Settled
          (λ w'.
            (skills_of key w'.ui.all_skills_by_type
              ≡ replace_skill id updated (skills_of key captured.all_skills_by_type))
            × (w'.ui.saving_skill ≡ false)
            × (w'.ui.editing_skill_form ≡ none))
          (exec (save_skill captured key id) (t ∷ ts) w)
  unfolding save_skill exec ◌>>=◌ catch finally api_request
  save_skill-overwrites captured key id form t ts w updated f e =
      let new = replace_skill id updated (skills_of key captured.all_skills_by_type) in
      let waited = t.meanwhile (record w.ui { saving_skill = true; skill_notice = "" }) in
      ground (arith, f, skills_of-put key new waited)
