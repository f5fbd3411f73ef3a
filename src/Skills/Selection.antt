-- ===== src/Skills/Selection.antt =====
-- Which events are selected after a click.
use webhook_listener.Prelude.{
  ◌≡◌, refl, Bool, false, not, String, ◌==◌, eq_iff, eq_refl, List, [], ◌∷◌, any, length, nat_eq,
  arith, if◌then◌else◌,
}
use webhook_listener.Js.Value.{Value, to_text}
use webhook_listener.Js.Dict.{Dict, get_or, put, get_or-put}
use webhook_listener.Skills.State.{State}
use webhook_listener.Skills.Events.{
  event_key, is_selected, selected_visible, toggle_event_selection, select_all,
  toggle_all_visible_events,
}

-- Some event of the list has the key.
abbrev pub listed : String → List Value → Bool
listed k events = any (λ e. event_key e == k) events

get_or-select_all :
    (value : Bool) (events : List Value) (k : String) (selected : Dict Bool)
    → get_or k false (select_all value events selected)
      ≡ (if listed k events then value else get_or k false selected)
unfolding select_all
get_or-select_all value [] k selected = refl
get_or-select_all value (e ∷ events) k selected = ground (
  arith,
  get_or-select_all value events k (put (event_key e) value selected),
  get_or-put (event_key e) k false value selected,
)

-- A click on "all" selects every visible event, or clears every visible event if all of them were
-- selected; the selection of other events stays.
pub toggle_all-selects :
    (captured s : State) (event : Value)
    → is_selected (toggle_all_visible_events captured s).selected_event_ids event ≡ (
        if listed (event_key event) captured.recent_events
        then not (
            nat_eq
              (length (selected_visible captured.selected_event_ids captured.recent_events))
              (length captured.recent_events))
        else is_selected s.selected_event_ids event)
unfolding toggle_all_visible_events is_selected
toggle_all-selects captured s event =
    get_or-select_all _ captured.recent_events (event_key event) s.selected_event_ids

-- A click on one event flips its selection and no other, and two clicks on it change nothing.
pub toggle_event_selection-flips :
    (id event : Value) (s : State)
    → (is_selected (toggle_event_selection id s).selected_event_ids event ≡ (
        if to_text id == event_key event
        then not (is_selected s.selected_event_ids event)
        else is_selected s.selected_event_ids event))
      × (is_selected
            (toggle_event_selection id (toggle_event_selection id s)).selected_event_ids
            event
          ≡ is_selected s.selected_event_ids event)
unfolding toggle_event_selection is_selected
toggle_event_selection-flips id event s =
    let k = to_text id in
    let old = s.selected_event_ids in
    let once = put k (not (get_or k false old)) old in
    ground (
      arith,
      eq_iff k (event_key event),
      eq_refl k,
      get_or-put k (event_key event) false (not (get_or k false old)) old,
      get_or-put k k false (not (get_or k false old)) old,
      get_or-put k (event_key event) false (not (get_or k false once)) once,
    )
