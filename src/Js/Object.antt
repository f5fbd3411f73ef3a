-- ===== src/Js/Object.antt =====
-- Object literals that spread: `{ ...base, ...over }` and `{ ...base, k: v }`.
use webhook_listener.Prelude.{◌≡◌, refl, String, ◌==◌, eq_iff, if◌then◌else◌, arith}
use webhook_listener.Js.Value.{Value, obj, Fields, end, field, own}

unfoldable pub set_own : String → Value → Fields → Fields
set_own k v end = field k v end
set_own k v (field j w fs) = if j == k then field k v fs else field j w (set_own k v fs)

-- { ...base, ...over }
unfoldable pub spread_fields : Fields → Fields → Fields
spread_fields base end = base
spread_fields base (field k v over) = spread_fields (set_own k v base) over

-- The own fields of a value that is spread: null and undefined have none.
abbrev pub fields : Value → Fields
fields (obj fs) = fs
fields v = end

pub own-set_own :
    (k j : String) (v : Value) (fs : Fields)
    → own j (set_own k v fs) ≡ (if k == j then v else own j fs)
unfolding set_own
own-set_own k j v end = refl
own-set_own k j v (field i w fs) =
    ground (arith, eq_iff k j, eq_iff i k, eq_iff i j, own-set_own k j v fs)
