-- ===== src/Skills/Counts.antt =====
-- The counts of skills that the tab shows, beside the lists that it keeps.
use webhook_listener.Prelude.{
  ℕ, ◌+◌, ◌≡◌, refl, Bool, true, false, String, eq_iff, List, [], ◌∷◌, any, map, length, arith,
  if◌then◌else◌,
}
use webhook_listener.Js.Value.{Value, to_text, strict_eq}
use webhook_listener.Js.Dict.{Dict, get_or, get, put, get_or-put}
use webhook_listener.Skills.State.{State, ListenerOption, skills_of}
use webhook_listener.Skills.Effects.{
  from_entries, count_entry, move_selection, store_entries, sync_selection,
}
use webhook_listener.Skills.Editing.{add_created, begin_edit_skill, cancel_edit_skill, store_saved}
use webhook_listener.Skills.Install.{store_fetched}

pub record IsCounted (s : State) : Type 0 where
  pub at_key : (k : String) → get_or k 0 s.skill_counts ≡ length (get_or k [] s.all_skills_by_type)

-- The changes that the handlers and the effects of the tab make to its counts and lists of skills,
-- while there is a listener. When there is none left, the effect on the listeners clears the counts
-- and keeps the lists.
pub data Change : State → State → Type 0 where
  created : (s : State) (key skill : Value) → Change s (add_created key skill s)
  saved :
      (s : State) (key selected : Value) (next : List Value)
      → Change s (store_saved key selected next s)
  fetched :
      (s : State) (key : Value) (skills : List Value) (notice : String)
      → Change s (store_fetched key skills notice s)
  prefetched :
      (s : State) (options : List ListenerOption) (selected : Value)
      (entries : List (String × List Value))
      → Change s (store_entries options selected entries s)
  synced :
      (s : State) (o : ListenerOption) (os : List ListenerOption)
      → Change s (sync_selection (o ∷ os) s)
  edited : (s : State) (key skill : Value) → Change s (begin_edit_skill key skill s)
  cancelled : (s : State) → Change s (cancel_edit_skill s)

pub data Changes (s : State) : State → Type 0 where
  here : Changes s s
  next : {t u : State} → Changes s t → Change t u → Changes s u

-- Writing a list and its length under one key keeps the two dictionaries in step.
put-counted :
    (k j : String) (xs : List Value) (counts : Dict ℕ) (lists : Dict (List Value))
    → get_or j 0 counts ≡ length (get_or j [] lists)
    → get_or j 0 (put k (length xs) counts) ≡ length (get_or j [] (put k xs lists))
put-counted k j xs counts lists h =
    ground (arith, h, get_or-put k j 0 (length xs) counts, get_or-put k j [] xs lists)

from_entries-counted :
    (entries : List (String × List Value)) (counts : Dict ℕ) (lists : Dict (List Value))
    → ((k : String) → get_or k 0 counts ≡ length (get_or k [] lists))
    → (k : String)
    → get_or k 0 (from_entries (map count_entry entries) counts)
      ≡ length (get_or k [] (from_entries entries lists))
from_entries-counted [] counts lists h k = h k
from_entries-counted ((j, xs) ∷ rest) counts lists h k =
    from_entries-counted rest (put j (length xs) counts) (put j xs lists)
      (λ i. put-counted j i xs counts lists (h i)) k

empty-counted : (k : String) → get_or {V = ℕ} k 0 [] ≡ length (get_or {V = List Value} k [] [])
unfolding get_or get
empty-counted k = refl

move_selection-IsCounted :
    (options : List ListenerOption) (selected : Value) (counts : Dict ℕ) (s : State)
    → IsCounted s
    → IsCounted (move_selection options selected counts s)
unfolding move_selection
move_selection-IsCounted options selected counts s h = record {
  at_key = λ k. ground (arith, h.at_key k);
}

unselected-IsCounted :
    (b : Bool) (o : ListenerOption) (s : State)
    → IsCounted s
    → IsCounted (if b then s else record s { selected_type_key = o.value })
unselected-IsCounted true o s h = h
unselected-IsCounted false o s h = record { at_key = h.at_key }

pub Change-IsCounted : {s t : State} → Change s t → IsCounted s → IsCounted t
unfolding add_created store_saved store_fetched store_entries sync_selection begin_edit_skill
    cancel_edit_skill
Change-IsCounted (created s key skill) h = record {
  at_key = λ k. ground (
    arith,
    h.at_key k,
    h.at_key (to_text key),
    eq_iff (to_text key) k,
    get_or-put (to_text key) k 0 (get_or (to_text key) 0 s.skill_counts + 1) s.skill_counts,
    get_or-put (to_text key) k [] (skill ∷ skills_of key s.all_skills_by_type) s.all_skills_by_type,
  );
}
Change-IsCounted (saved s key selected new) h = record {
  at_key = λ k. put-counted (to_text key) k new _ _ (h.at_key k);
}
Change-IsCounted (fetched s key skills notice) h = record {
  at_key = λ k. put-counted (to_text key) k skills _ _ (h.at_key k);
}
Change-IsCounted (prefetched s options selected entries) h =
    move_selection-IsCounted options selected _ _
      (record { at_key = from_entries-counted entries [] [] empty-counted })
Change-IsCounted (synced s o os) h =
    unselected-IsCounted (any (λ item. strict_eq item.value s.selected_type_key) (o ∷ os)) o s h
Change-IsCounted (edited s key skill) h = record { at_key = h.at_key }
Change-IsCounted (cancelled s) h = record { at_key = h.at_key }
