-- ===== src/Skills/Effects.antt =====
-- The effects of the skills tab: what a render with other listeners or another selection starts.
use webhook_listener.Js.Value.{is_nullish, Value, str, prop, truthy, strict_eq, to_text, ◌⧺◌}
use webhook_listener.Async.Steps.{throw_if, set_state, skip}
use webhook_listener.Prelude.{
  ℕ, Bool, true, false, not, ◌&&◌, String, List, [], ◌∷◌, none, some, map, any, find, filter,
  length, ltb, nat_eq, if◌then◌else◌,
}
use webhook_listener.Js.Dict.{Dict, get_or, put}
use webhook_listener.Js.Engine.{Engine}
use webhook_listener.Async.{Act, pure, choose, ◌>>=◌, ◌>>◌, catch, finally, gather}
use webhook_listener.Api.{api_request, no_options, rows}
use webhook_listener.Skills.State.{State, ListenerOption, first_value}

-- The selection follows the listeners: it is cleared when there are none, and moves to the first one
-- when it names no listener any more.
unfoldable pub sync_selection : List ListenerOption → State → State
sync_selection [] s = record s { selected_type_key = str ""; skill_counts = []; skills = [] }
sync_selection (o ∷ os) s =
    if any (λ item. strict_eq item.value s.selected_type_key) (o ∷ os)
    then s
    else record s { selected_type_key = o.value }

-- Object.fromEntries
abbrev pub from_entries {ℓ} : {V : Type ℓ} → List (String × V) → Dict V → Dict V
from_entries [] m = m
from_entries ((k, v) ∷ rest) m = from_entries rest (put k v m)

abbrev pub count_entry : String × List Value → String × ℕ
count_entry (k, v) = (k, length v)

-- The option with skills that the selection moves to, if the first option is selected and has none.
unfoldable pub move_selection : List ListenerOption → Value → Dict ℕ → State → State
move_selection options selected counts s =
    elim (find (λ o. ltb 0 (get_or (to_text o.value) 0 counts)) options) [
      | none ↦ s
      | some o ↦
          if truthy o.value
            && strict_eq selected (first_value options)
            && nat_eq (get_or (to_text selected) 0 counts) 0
          then record s { selected_type_key = o.value }
          else s
    ]

unfoldable pub store_entries :
    List ListenerOption → Value → List (String × List Value) → State → State
unfolding move_selection
store_entries options selected entries s =
    let counts = from_entries (map count_entry entries) [] in
    move_selection options selected counts
      (record s { all_skills_by_type = from_entries entries []; skill_counts = counts })

module _ ⦃js : Engine⦄ where
  unfoldable pub fetch_skills_for_type : {S : Type 0} → Value → Bool → Act S (List Value)
  fetch_skills_for_type key include_disabled = do
    reply ←
        api_request
          ("/api/policy/skills?type_key="
            ⧺ js.encode (to_text key)
            ⧺ (if include_disabled then "&include_disabled=true" else ""))
          no_options
    pure (rows reply)

  fetch_entry : ListenerOption → Act State (String × List Value)
  unfolding fetch_skills_for_type
  fetch_entry o = do skills ← fetch_skills_for_type o.value true; pure (to_text o.value, skills)

  -- The skills of every listener at once. A cleanup may have cancelled the effect by then.
  unfoldable pub prefetch_skills : List ListenerOption → Value → Act State Unit
  unfolding fetch_entry store_entries
  prefetch_skills [] selected = skip
  prefetch_skills (o ∷ os) selected =
      catch
        (do
          entries ← gather (map fetch_entry (o ∷ os))
          choose λ cancelled.
              if cancelled then skip else set_state (store_entries (o ∷ os) selected entries))
        (λ e. skip)

  unfoldable pub load_skills : Value → Act State Unit
  unfolding fetch_skills_for_type
  load_skills selected = if not (truthy selected) then skip else do
    set_state (λ s. record s { loading_skills = true })
    finally
        (catch
          (do
            skills ← fetch_skills_for_type selected true
            set_state (λ s. record s { skills = skills }))
          (λ e. set_state (λ s. record s { skill_notice = e })))
        (λ s. record s { loading_skills = false })

  -- normalized.filter((event) => event.type_key === selectedTypeKey)
  abbrev pub events_of : Value → List Value → List Value
  events_of selected events = filter (λ event. strict_eq (prop "type_key" event) selected) events

  unfoldable pub load_recent_events : Value → Act State Unit
  load_recent_events selected =
      if not (truthy selected)
      then set_state (λ s. record s { recent_events = []; selected_event_ids = [] })
      else do
        set_state (λ s. record s { loading_recent_events = true })
        finally
            (catch
              (do
                reply ← api_request "/api/events" no_options
                throw_if (any is_nullish (rows reply)) js.type_error
                set_state (λ s. record s { recent_events = events_of selected (rows reply) }))
              (λ e. set_state (λ s. record s { rerun_notice = e })))
            (λ s. record s { loading_recent_events = false })
