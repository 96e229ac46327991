-- ===== src/Python.antt =====
-- What the Brain takes from `team_protocol::python` (protocol/team/http, a mirror of Team's crate):
-- Python's text and JSON semantics, as a parameter of the definitions that use them.
use shimpz_brain.Base.{Bool, String, Char, Option}
use shimpz_brain.Json.Types.{Value}

pub record Python : Type 0 where
  pub strip : String → String
  pub nfc : String → String
  pub is_nfc : String → Bool
  pub casefold : String → String
  pub isprintable : String → Bool
  pub isspace : Char → Bool
  pub category : Char → String
  pub compact : Value → String  -- `dumps(value, COMPACT)`
  pub spaced : Value → String  -- `dumps(value, SPACED)`
  pub parse : String → Option Value  -- `strict_json::parse(text.as_bytes()).ok()`
