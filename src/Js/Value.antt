-- ===== src/Js/Value.antt =====
-- JavaScript values as JSON and the forms carry them: what `typeof`, `Array.isArray`, truthiness,
-- `||`, `??`, property access and `String(…)` do with them.
use Prim.Native.String
use webhook_listener.Prelude.{
  ◌≡◌, refl, Bool, true, false, not, ◌||◌, List, [], ◌∷◌, String, ◌==◌, if◌then◌else◌,
}

-- A number is the decimal text that `String(…)` gives for it, so that no floating point is needed.
mutual
  pub data Value : Type 0 where
    undefined null : Value
    bool : Bool → Value
    num : String → Value
    str : String → Value
    obj : Fields → Value
    arr : Items → Value

  -- The own properties of an object, in their order.
  pub data Fields : Type 0 where
    end : Fields
    field : (key : String) (value : Value) (rest : Fields) → Fields

  -- The items of an array.
  pub data Items : Type 0 where
    nil : Items
    cons : (first : Value) (rest : Items) → Items

abbrev pub to_list : Items → List Value
to_list nil = []
to_list (cons v vs) = v ∷ to_list vs

abbrev pub of_list : List Value → Items
of_list [] = nil
of_list (v ∷ vs) = cons v (of_list vs)

pub to_list-of_list : (vs : List Value) → to_list (of_list vs) ≡ vs
to_list-of_list [] = refl
to_list-of_list (v ∷ vs) = λ i. v ∷ to_list-of_list vs i

-- Boolean(v)
unfoldable pub truthy : Value → Bool
truthy undefined = false
truthy null = false
truthy (bool b) = b
truthy (num n) = not (n == "0" || n == "-0" || n == "NaN")
truthy (str s) = not (s == "")
truthy (arr vs) = true
truthy (obj fs) = true

infixr 30 ◌or◌
-- a || b
abbrev pub ◌or◌ : Value → Value → Value
a or b = if truthy a then a else b

-- a ?? b
abbrev pub nullish : Value → Value → Value
nullish undefined b = b
nullish null b = b
nullish a b = a

abbrev pub own : String → Fields → Value
own k end = undefined
own k (field j v fs) = if j == k then v else own k fs

-- v?.k, where `k` is no name of a built-in property
unfoldable pub prop : String → Value → Value
prop k (obj fs) = own k fs
prop k v = undefined

-- Array.isArray(v)
abbrev pub is_array : Value → Bool
is_array (arr vs) = true
is_array v = false

-- v && typeof v === 'object' && !Array.isArray(v)
abbrev pub is_object : Value → Bool
is_object (obj fs) = true
is_object v = false

-- typeof v === 'string'
abbrev pub is_string : Value → Bool
is_string (str s) = true
is_string v = false

-- The items of an array.
abbrev pub items : Value → List Value
items (arr vs) = to_list vs
items v = []

-- v === s
abbrev pub is_text : Value → String → Bool
is_text (str t) s = t == s
is_text v s = false

-- v === true, v === false
abbrev pub is_bool : Value → Bool → Bool
is_bool (bool b) c = if b then c else not c
is_bool v c = false

-- a === b for null, undefined, Booleans, numbers and strings. Two objects are taken to be different
-- ones: the code compares only identifiers.
unfoldable pub strict_eq : Value → Value → Bool
strict_eq undefined undefined = true
strict_eq null null = true
strict_eq (bool b) (bool c) = if b then c else not c
strict_eq (num m) (num n) = m == n
strict_eq (str s) (str t) = s == t
strict_eq a b = false

infixr 65 ◌⧺◌
abbrev pub ◌⧺◌ : String → String → String
s ⧺ t = String.◌++◌ s t

unfoldable mutual
  -- String(v) and `${v}`
  pub to_text : Value → String
  to_text undefined = "undefined"
  to_text null = "null"
  to_text (bool b) = if b then "true" else "false"
  to_text (num n) = n
  to_text (str s) = s
  to_text (arr vs) = join_items vs
  to_text (obj fs) = "[object Object]"

  -- vs.join(','), where undefined and null are empty
  pub join_items : Items → String
  join_items nil = ""
  join_items (cons v vs) = after_item (item_text v) vs

  pub item_text : Value → String
  item_text undefined = ""
  item_text null = ""
  item_text (bool b) = if b then "true" else "false"
  item_text (num n) = n
  item_text (str s) = s
  item_text (arr vs) = join_items vs
  item_text (obj fs) = "[object Object]"

  pub after_item : String → Items → String
  after_item s nil = s
  after_item s (cons v vs) = s ⧺ "," ⧺ after_item (item_text v) vs

-- The values whose properties cannot be read: v.k throws a TypeError for them. `prop` is v?.k.
abbrev pub is_nullish : Value → Bool
is_nullish undefined = true
is_nullish null = true
is_nullish v = false
