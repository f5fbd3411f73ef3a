-- ===== src/Js/Decimal.antt =====
-- `${n}` for a natural number.
use Prim.Native.Nat.{◌/◌, ◌%◌}
use webhook_listener.Prelude.{ℕ, zero, suc, ◌≡◌, refl, String, ltb, if◌then◌else◌}
use webhook_listener.Js.Value.{◌⧺◌}

abbrev digit : ℕ → String
digit zero = "0"
digit (suc zero) = "1"
digit (suc (suc zero)) = "2"
digit (suc (suc (suc zero))) = "3"
digit (suc (suc (suc (suc zero)))) = "4"
digit (suc (suc (suc (suc (suc zero))))) = "5"
digit (suc (suc (suc (suc (suc (suc zero)))))) = "6"
digit (suc (suc (suc (suc (suc (suc (suc zero))))))) = "7"
digit (suc (suc (suc (suc (suc (suc (suc (suc zero)))))))) = "8"
digit (suc (suc (suc (suc (suc (suc (suc (suc (suc n))))))))) = "9"

-- The fuel is the number itself, which has no more digits than one above it.
show_from : ℕ → ℕ → String → String
show_from zero n rest = rest
show_from (suc f) n rest =
    let more = show_from f (n / 10) (digit (n % 10) ⧺ rest) in
    if ltb n 10 then digit (n % 10) ⧺ rest else more

unfoldable pub show : ℕ → String
unfolding show_from
show n = show_from (suc n) n ""

show_404 : show 404 ≡ "404"
unfolding show
show_404 = refl
