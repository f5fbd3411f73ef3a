-- ===== src/Tabs/Integrations/Form.antt =====
-- The checkboxes of the allowed actions.
use webhook_listener.Prelude.{
  ◌≡◌, true, false, not, ◌||◌, String, ◌==◌, eq_iff, List, [], ◌∷◌, ◌++◌, arith, if◌then◌else◌,
  filter, Bool-cases, inl, inr,
}
use webhook_listener.Js.Value.{Value, str, is_text}
use webhook_listener.Tabs.Integrations.{State, includes, toggled, toggle_action}

includes-append :
    (b a : String) (xs : List Value) → includes b (xs ++ str a ∷ []) ≡ (includes b xs || (a == b))
includes-append b a [] = ground arith
includes-append b a (x ∷ xs) = ground (arith, includes-append b a xs)

is_text_unique : (v : Value) (a b : String) → is_text v a ≡ true → is_text v b ≡ (a == b)
is_text_unique (str s) a b h = ground (arith, eq_iff s a, eq_iff s b, eq_iff a b)
is_text_unique v a b h = cc

is_text-other : (v : Value) (a b : String) → is_text v a ≡ false → a ≡ b → is_text v b ≡ false
is_text-other v a b h e = rw (← e) h

includes-filter :
    (b a : String) (xs : List Value)
    → includes b (filter (λ v. not (is_text v a)) xs) ≡ (if a == b then false else includes b xs)
includes-filter b a [] = ground arith
includes-filter b a (x ∷ xs) = elim (Bool-cases (is_text x a)) [
  | inl same ↦
      rw same (ground (arith, includes-filter b a xs, is_text_unique x a b same, eq_iff a b))
  | inr other ↦
      rw other (ground (arith, includes-filter b a xs, eq_iff a b, is_text-other x a b other))
]

includes-toggled :
    (b a : String) (xs : List Value)
    → includes b (toggled a xs) ≡ (if a == b then not (includes a xs) else includes b xs)
includes-toggled b a xs = ground (arith, includes-filter b a xs, includes-append b a xs, eq_iff a b)

-- Toggling an action flips whether that action is allowed, and no other.
pub toggle_action-flips :
    (action other : String) (s : State)
    → includes other (toggle_action action s).target_form.allowed_actions ≡ (
        if action == other
        then not (includes action s.target_form.allowed_actions)
        else includes other s.target_form.allowed_actions)
unfolding toggle_action
toggle_action-flips action other s = includes-toggled other action s.target_form.allowed_actions
