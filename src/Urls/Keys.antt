-- ===== src/Urls/Keys.antt =====
-- The keys under which the tab keeps the secrets of its listeners.
use text.Mathlib.TextLemmas.{nil-append, cons-append, cons-eq-cons}
use mathlib.Core.Path.{ap₂}
use webhook_listener.Prelude.{
  ◌≡◌, refl, sym, ◌∙◌, Bool, true, false, String, Char, code, nat_eq, arith,
}
use webhook_listener.Js.Value.{Value, to_text, ◌⧺◌}
use webhook_listener.Js.Text.{has_char}
use webhook_listener.Urls.State.{listener_key}

abbrev pub is_colon : Char → Bool
is_colon c = nat_eq (code c) b':'

colon_rest :
    {c : Char} (a s : String)
    → Path String (String.◌∷◌ ":" a) (String.◌∷◌ c s)
    → (◌≡◌ {A = Char} ":" c) × (a ≡ s)
colon_rest a s e = cons-eq-cons.0 e

not_colon : (c : Char) (s : String) → has_char is_colon (String.◌∷◌ c s) ≡ false → ¬ (c ≡ ":")
not_colon c s h e =
    let clear : is_colon c ≡ false = ground arith in let colon : is_colon c ≡ true = rw e in cc

tail_clear :
    (c : Char) (s : String)
    → has_char is_colon (String.◌∷◌ c s) ≡ false
    → has_char is_colon s ≡ false
tail_clear c s h = ground arith

colon-injective :
    (p q a b : String)
    → has_char is_colon p ≡ false
    → has_char is_colon q ≡ false
    → p ⧺ String.◌∷◌ ":" a ≡ q ⧺ String.◌∷◌ ":" b
    → (p ≡ q) × (a ≡ b)
colon-injective String.[] String.[] a b hp hq e =
    let same = colon_rest a b (sym (nil-append _) ∙ e ∙ nil-append _) in (refl, same.1)
colon-injective String.[] (String.◌∷◌ d q) a b hp hq e =
    let same = colon_rest a _ (sym (nil-append _) ∙ e ∙ cons-append d q _) in
    absurd (not_colon d q hq (sym same.0))
colon-injective (String.◌∷◌ c p) String.[] a b hp hq e =
    let same = colon_rest b _ (sym (nil-append _) ∙ sym e ∙ cons-append c p _) in
    absurd (not_colon c p hp (sym same.0))
colon-injective (String.◌∷◌ c p) (String.◌∷◌ d q) a b hp hq e =
    let (head, tail) = cons-eq-cons.0 (sym (cons-append c p _) ∙ e ∙ cons-append d q _) in
    let (same, rest) = colon-injective p q a b (tail_clear c p hp) (tail_clear d q hq) tail in
    (ap₂ String.◌∷◌ head same, rest)

-- Two listeners whose providers hold no colon share a key only if provider and id have one text.
pub listener_key-injective :
    (p q a b : Value)
    → has_char is_colon (to_text p) ≡ false
    → has_char is_colon (to_text q) ≡ false
    → listener_key p a ≡ listener_key q b
    → (to_text p ≡ to_text q) × (to_text a ≡ to_text b)
unfolding listener_key
listener_key-injective p q a b hp hq e =
    colon-injective (to_text p) (to_text q) (to_text a) (to_text b) hp hq e
