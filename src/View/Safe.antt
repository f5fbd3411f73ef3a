-- ===== src/View/Safe.antt =====
-- What holds of every event that a view offers.
use mathlib.Core.Path.{subst}
use webhook_listener.Prelude.{◌≡◌, Bool, true, false, String, List, [], ◌∷◌, inl, inr}
use webhook_listener.Js.Value.{Value}
use webhook_listener.View.{
  View, nothing, ◌&◌, text, value, button, input, select, option, checkbox, link, Offers, each,
  shown_if, either,
}

module _ {M : Type 0} where
  -- Every event that a control of the view can send satisfies `P`.
  pub data Safe (P : M → Type 0) : View M → Type 0 where
    of_nothing : Safe P nothing
    of_both : {v w : View M} → Safe P v → Safe P w → Safe P (v & w)
    of_text : (s : String) → Safe P (text s)
    of_value : (v : Value) → Safe P (value v)
    of_button :
        (label : String) (disabled : Bool) (click : M)
        → (disabled ≡ false → P click)
        → Safe P (button label disabled click)
    of_input :
        (v : Value) (change : String → M) → ((s : String) → P (change s)) → Safe P (input v change)
    of_select :
        (v : Value) (options : View M) (change : String → M)
        → ((s : String) → P (change s))
        → Safe P (select v options change)
    of_option : (v label : Value) → Safe P (option v label)
    of_checkbox :
        (label : String) (checked : Bool) (change : M)
        → P change
        → Safe P (checkbox label checked change)
    of_link : (label href : String) → Safe P (link label href)

module _ {M : Type 0} {P : M → Type 0} where
  pub Safe-Offers : {v : View M} {m : M} → Safe P v → Offers v m → P m
  unfolding Offers
  Safe-Offers of_nothing o = elim o [ ]
  Safe-Offers (of_both h k) (inl o) = Safe-Offers h o
  Safe-Offers (of_both h k) (inr o) = Safe-Offers k o
  Safe-Offers (of_text s) o = elim o [ ]
  Safe-Offers (of_value v) o = elim o [ ]
  Safe-Offers (of_button label disabled click h) o = subst P o.1 (h o.0)
  Safe-Offers (of_input v change h) o = subst P o.1 (h o.0)
  Safe-Offers (of_select v options change h) o = subst P o.1 (h o.0)
  Safe-Offers (of_option v label) o = elim o [ ]
  Safe-Offers (of_checkbox label checked change h) o = subst P o h
  Safe-Offers (of_link label href) o = elim o [ ]

  pub Safe-each :
      {A : Type 0} (xs : List A) (f : A → View M) → ((x : A) → Safe P (f x)) → Safe P (each xs f)
  unfolding each
  Safe-each [] f h = of_nothing
  Safe-each (x ∷ xs) f h = of_both (h x) (Safe-each xs f h)

  pub Safe-shown_if : (c : Bool) (v : View M) → Safe P v → Safe P (shown_if c v)
  unfolding shown_if
  Safe-shown_if true v h = h
  Safe-shown_if false v h = of_nothing

  pub Safe-either : (c : Bool) (v w : View M) → Safe P v → Safe P w → Safe P (either c v w)
  unfolding either
  Safe-either true v w h k = h
  Safe-either false v w h k = k

module _ {M : Type 0} where
  pub shown_if-Offers :
      (b : Bool) (v : View M) (m : M) → b ≡ true → Offers v m → Offers (shown_if b v) m
  unfolding shown_if
  shown_if-Offers b v m e h = rw e h

pub ruleset safe_rules = (
  of_both, of_text, of_value, of_button, of_input, of_select, of_option, of_checkbox, of_link,
  of_nothing, Safe-each, Safe-shown_if, Safe-either,
)
