-- ===== src/View.antt =====
-- What a component renders: its texts and its controls, in the order of the document. Layout, styles,
-- icons and placeholders are left out.
pub mod Safe
pub mod Parts
use webhook_listener.Prelude.{Bool, true, false, String, List, [], ◌∷◌, ◌⊎◌, ◌≡◌, if◌then◌else◌}
use webhook_listener.Js.Value.{Value}

infixr 4 ◌&◌
-- `M` is the type of the events that the controls send to the component.
pub data View (M : Type 0) : Type 0 where
  nothing : View M
  ◌&◌ : View M → View M → View M
  text : String → View M
  value : Value → View M
  button : (label : String) (disabled : Bool) (click : M) → View M
  input : (content : Value) (change : String → M) → View M
  select : (content : Value) (options : View M) (change : String → M) → View M
  option : (chosen : Value) (label : Value) → View M
  checkbox : (label : String) (checked : Bool) (change : M) → View M
  link : (label : String) (href : String) → View M

-- {condition && view}
unfoldable pub shown_if : {M : Type 0} → Bool → View M → View M
shown_if c v = if c then v else nothing

-- {condition ? view : other}
unfoldable pub either : {M : Type 0} → Bool → View M → View M → View M
either c v w = if c then v else w

-- {rows.map((row) => view)}
unfoldable pub each : {A M : Type 0} → List A → (A → View M) → View M
each [] f = nothing
each (x ∷ xs) f = f x & each xs f

-- !rows.length
abbrev pub is_nil : {A : Type 0} → List A → Bool
is_nil [] = true
is_nil (x ∷ xs) = false

-- The user can send the event by some control of the view. A disabled button sends none.
unfoldable pub Offers : {M : Type 0} → View M → M → Type 0
Offers nothing m = ⊥
Offers (v & w) m = Offers v m ⊎ Offers w m
Offers (text s) m = ⊥
Offers (value v) m = ⊥
Offers (button label disabled click) m = (disabled ≡ false) × (click ≡ m)
Offers (input v change) m = (s : String) × (change s ≡ m)
Offers (select v options change) m = (s : String) × (change s ≡ m)
Offers (option v label) m = ⊥
Offers (checkbox label checked change) m = change ≡ m
Offers (link label href) m = ⊥
