-- ===== src/Js/Engine.antt =====
-- The built-ins of the JavaScript engine and the browser that the code calls and does not define.
use webhook_listener.Prelude.{List, String, Option}
use webhook_listener.Js.Value.{Value}

pub record Engine : Type 0 where
  -- JSON.parse(s); `none` where it throws a SyntaxError
  pub parse : String → Option Value
  -- JSON.stringify(v)
  pub stringify : Value → String
  -- JSON.stringify(v, null, 2)
  pub pretty : Value → String
  -- encodeURIComponent(s)
  pub encode : String → String
  -- new URLSearchParams() after `set` of these pairs, toString()
  pub query : List (String × String) → String
  -- String(Number(v))
  pub number : Value → String
  -- s.toLowerCase(), s.toUpperCase()
  pub lower : String → String
  pub upper : String → String
  -- the message of a TypeError: of the call of a missing method, or of reading a property of null
  pub type_error : String
  -- the message of the SyntaxError that JSON.parse throws
  pub syntax_error : String
