-- ===== src/Script.antt =====
-- scripts/e2e/agenthook_prod_browser.mjs: the arguments of the browser script.
use webhook_listener.Prelude.{
  Bool, false, not, ◌&&◌, ◌||◌, String, ◌==◌, List, [], ◌∷◌, ◌++◌, if◌then◌else◌, Char, code,
  nat_eq,
}
use webhook_listener.Js.Value.{
  Value, str, arr, nil, undefined, items, of_list, is_array, truthy, ◌⧺◌,
}
use webhook_listener.Js.Dict.{Dict, get_or, put}
use webhook_listener.Js.Engine.{Engine}
use webhook_listener.Async.{Result, ok, err}

abbrev is_dash : Char → Bool
is_dash c = nat_eq (code c) b'-'

-- arg.startsWith('--')
abbrev pub is_option : String → Bool
is_option (String.◌∷◌ a (String.◌∷◌ b s)) = is_dash a && is_dash b
is_option s = false

-- arg.slice(2)
abbrev pub option_name : String → String
option_name (String.◌∷◌ a (String.◌∷◌ b s)) = s
option_name s = String.[]

module _ ⦃js : Engine⦄ where
  -- out._.push(arg); an option named _ has put a text there, which has no `push`.
  unfoldable pub push_arg : String → Dict Value → Result (Dict Value)
  push_arg arg out =
      let rest = get_or "_" undefined out in
      if is_array rest
      then ok (put "_" (arr (of_list (items rest ++ str arg ∷ []))) out)
      else err js.type_error

  abbrev then_parse : Result (Dict Value) → (Dict Value → Result (Dict Value)) → Result (Dict Value)
  then_parse (ok out) f = f out
  then_parse (err e) f = err e

  -- The loop over the arguments from `i` on.
  unfoldable pub parse_from : List String → Dict Value → Result (Dict Value)
  unfolding push_arg
  parse_from [] out = ok out
  parse_from (arg ∷ []) out =
      if is_option arg then ok (put (option_name arg) (str "true") out) else push_arg arg out
  parse_from (arg ∷ next ∷ argv) out =
      if not (is_option arg)
      then then_parse (push_arg arg out) (parse_from (next ∷ argv))
      else if next == "" || is_option next
      then parse_from (next ∷ argv) (put (option_name arg) (str "true") out)
      else parse_from argv (put (option_name arg) (str next) out)

  unfoldable pub parse_args : List String → Result (Dict Value)
  unfolding parse_from
  parse_args argv = parse_from argv (("_", arr nil) ∷ [])

  unfoldable pub require_arg : Dict Value → String → Result Value
  require_arg args key =
      let value = get_or key undefined args in
      if truthy value then ok value else err ("missing required --" ⧺ key)
