-- ===== src/Tools/Action.antt =====
-- runtime/src/tools/action.rs: the tool name of an Action, and the correction of an invalid call.
pub mod Bounds
use Prim.Native.String.{len, ◌++◌ as str_append}
use shimpz_brain.Base.{
  ℕ, zero, suc, String, Char, code, Bool, true, false, ◌&&◌, ◌||◌, Option, none, some, List, [],
  ◌∷◌, take, collect, leb, ◌==◌, is_nil, if◌then◌else◌,
}
use shimpz_brain.Json.Types.{Value, arr, str, values, get}
use shimpz_brain.Text.{hex}
use shimpz_brain.Turn.Context.{ActionDefinition}

abbrev pub slug_chars : ℕ
slug_chars = 18

abbrev pub max_correction_chars : ℕ
max_correction_chars = 1000

abbrev pub max_listed_names : ℕ
max_listed_names = 16

-- `chars().take(n).collect()`.
abbrev pub take_chars : ℕ → String → String
take_chars zero s = ""
take_chars (suc n) String.[] = ""
take_chars (suc n) (String.◌∷◌ c s) = String.◌∷◌ c (take_chars n s)

-- `replace('.', "_")`.
abbrev underscored : String → String
underscored String.[] = ""
underscored (String.◌∷◌ c s) =
    let rest = underscored s in if code c == b'.' then str_append "_" rest else String.◌∷◌ c rest

abbrev pub slug : String → String
slug id = take_chars slug_chars (underscored id)

-- The two ids under one digest, of which the name keeps eight bytes; `sha256` is `Sha256::digest`.
unfoldable pub tool_name : (String → List ℕ) → String → String → String
tool_name sha256 assistant_id action_id =
    let digest = sha256 (str_append assistant_id (str_append "\0" action_id)) in
    str_append "a_" (
      str_append (slug assistant_id)
        (str_append "__a_" (str_append (slug action_id) (str_append "__" (hex (take 8 digest))))))

abbrev is_alpha : Char → Bool
is_alpha c = (leb b'a' (code c) && leb (code c) b'z') || (leb b'A' (code c) && leb (code c) b'Z')

abbrev is_digit : Char → Bool
is_digit c = leb b'0' (code c) && leb (code c) b'9'

abbrev all_plain : String → Bool
all_plain String.[] = true
all_plain (String.◌∷◌ c s) =
    (is_alpha c || is_digit c || code c == b'_' || code c == b'-') && all_plain s

unfoldable pub plain : String → Bool
plain String.[] = false
plain (String.◌∷◌ c s) =
    (is_alpha c || code c == b'_') && leb (len (String.◌∷◌ c s)) 64 && all_plain s

plain_name : Value → Option String
unfolding plain
plain_name (str text) = if plain text then some text else none
plain_name _ = none

required_names : Option Value → List Value
required_names (some (arr items)) = take max_listed_names (values items)
required_names _ = []

comma_join : List String → String
comma_join [] = ""
comma_join (w ∷ []) = w
comma_join (w ∷ v ∷ ws) = str_append w (str_append ", " (comma_join (v ∷ ws)))

listed_names : Option (List String) → String
unfolding comma_join
listed_names none = "every required property"
listed_names (some names) =
    if is_nil names
    then "every required property"
    else str_append "every required property (" (str_append (comma_join names) ")")

unfoldable pub correction : String → ActionDefinition → String
unfolding plain_name required_names listed_names
correction name action =
    let names = required_names (get action.input_schema "required") in
    take_chars max_correction_chars (
      str_append "Action not executed: the arguments for " (
        str_append name (
          str_append
            " did not match its input schema. Call it again with only its declared properties, "
            (str_append (listed_names (collect plain_name names))
              ", and values of the declared types and allowed values."))))
