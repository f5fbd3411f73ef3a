-- ===== src/Async/Steps.antt =====
-- The statements of handlers, as actions.
use webhook_listener.Prelude.{
  Option, none, some, ◌≡◌, refl, true, false, Bool, String, if◌then◌else◌,
}
use webhook_listener.Js.Value.{Value, str}
use webhook_listener.Js.Text.{trim}
use webhook_listener.Js.Engine.{Engine}
use webhook_listener.Async.{
  Act, pure, throw, update, ask, Result, ok, err, Run, finished, waiting, World,
}

-- setX(…)
abbrev pub set_state : {S : Type 0} → (S → S) → Act S Unit
set_state g = update g (pure tt)

-- Nothing happens, as at an early return.
abbrev pub skip : {S : Type 0} → Act S Unit
skip = pure tt

-- if (b) throw new Error(message)
abbrev pub throw_if : {S : Type 0} → Bool → String → Act S Unit
throw_if b message = if b then throw message else pure tt

abbrev pub from_result : {S A : Type 0} → Result A → Act S A
from_result (ok a) = pure a
from_result (err e) = throw e

abbrev pub map_result : {A B : Type 0} → Result A → (A → B) → Result B
map_result (ok a) f = ok (f a)
map_result (err e) f = err e

-- window.confirm(question)
abbrev pub confirm : {S : Type 0} → String → Act S Bool
confirm question = ask question pure

module _ ⦃js : Engine⦄ where
  -- v.trim()
  unfoldable pub trim_value : Value → Result String
  trim_value (str s) = ok (trim s)
  trim_value v = err js.type_error

-- The run is over, and `P` holds of the world at its end.
abbrev pub Settled : {S A : Type 0} → (World S → Type 0) → Run S A → Type 0
Settled P (finished r ts w) = P w
Settled P (waiting w) = ⊥

pub Settled-map :
    {S A : Type 0} (P Q : World S → Type 0) (r : Run S A)
    → ((w : World S) → P w → Q w)
    → Settled P r
    → Settled Q r
Settled-map P Q (finished r ts w) f h = f w h
Settled-map P Q (waiting w) f h = h

-- What holds where a result is a value, and what holds where it is an error.
abbrev pub OnResult : {A : Type 0} → Result A → (A → Type 0) → (String → Type 0) → Type 0
OnResult (ok a) P Q = P a
OnResult (err e) P Q = Q e

pub case_result :
    {A : Type 0} (r : Result A) (P : A → Type 0) (Q : String → Type 0)
    → ((a : A) → r ≡ ok a → P a)
    → ((e : String) → r ≡ err e → Q e)
    → OnResult r P Q
case_result (ok a) P Q p q = p a refl
case_result (err e) P Q p q = q e refl

-- What holds where a test is true, and what holds where it is false.
abbrev pub OnTest : Bool → Type 0 → Type 0 → Type 0
OnTest true P Q = P
OnTest false P Q = Q

pub case_test : (b : Bool) (P Q : Type 0) → (b ≡ true → P) → (b ≡ false → Q) → OnTest b P Q
case_test true P Q p q = p refl
case_test false P Q p q = q refl

pub OnResult-map :
    {A : Type 0} (r : Result A) (P P' : A → Type 0) (Q Q' : String → Type 0)
    → OnResult r P Q
    → ((a : A) → P a → P' a)
    → ((e : String) → Q e → Q' e)
    → OnResult r P' Q'
OnResult-map (ok a) P P' Q Q' h f g = f a h
OnResult-map (err e) P P' Q Q' h f g = g e h

pub OnTest-map :
    (b : Bool) (P P' Q Q' : Type 0) → (P → P') → (Q → Q') → OnTest b P Q → OnTest b P' Q'
OnTest-map true P P' Q Q' f g h = f h
OnTest-map false P P' Q Q' f g h = g h

-- What holds where an optional value is absent, and what holds where it is there.
abbrev pub OnOption : {A : Type 0} → Option A → Type 0 → (A → Type 0) → Type 0
OnOption none P Q = P
OnOption (some a) P Q = Q a

pub case_option :
    {A : Type 0} (o : Option A) (P : Type 0) (Q : A → Type 0)
    → (o ≡ none → P)
    → ((a : A) → o ≡ some a → Q a)
    → OnOption o P Q
case_option none P Q p q = p refl
case_option (some a) P Q p q = q a refl
