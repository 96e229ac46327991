-- ===== src/Json.antt =====
-- runtime/src/json.rs: building and reading JSON values. The encoder (`dumps`, `compact`) is the
-- Team protocol's, a parameter where it is used.
pub mod Types
use shimpz_brain.Base.{
  ℕ, zero, suc, ◌+◌, ◌/◌, ◌%◌, ◌^◌, String, str_eq, Bool, true, false, ◌&&◌, Option, none, some,
  List, [], ◌∷◌, ltb, ◌==◌, length, any, all, map, if◌then◌else◌, ◌>>=◌, is_some,
}
use shimpz_brain.Base.Int.{ℤ, pos, negsuc}
use Prim.Native.String.{◌++◌ as str_append}
use Types.{
  Value, Number, Members, null, bool, num, str, arr, obj, get, values, of_values, pairs, of_pairs,
}

-- `to_string` of a `u64`, whose digits are at most 20.
digit : ℕ → String
digit n =
    if n == 0
    then "0"
    else if n == 1
    then "1"
    else if n == 2
    then "2"
    else if n == 3
    then "3"
    else if n == 4
    then "4"
    else if n == 5
    then "5"
    else if n == 6
    then "6"
    else if n == 7
    then "7"
    else if n == 8
    then "8"
    else "9"

decimal_on : ℕ → ℕ → String
unfolding digit
decimal_on zero n = ""
decimal_on (suc fuel) n =
    let longer = str_append (decimal_on fuel (n / 10)) (digit (n % 10)) in
    if ltb n 10 then digit n else longer

unfoldable pub decimal : ℕ → String
unfolding decimal_on
decimal n = decimal_on 20 n

unfoldable pub object : List (String × Value) → Value
object members = obj (of_pairs members)

unfoldable pub array : List Value → Value
array items = arr (of_values items)

unfoldable pub text : String → Value
text value = str value

unfoldable pub int : ℤ → Value
int value = num (Number.int value)

-- `i64::try_from` succeeds below 2 ^ 63.
unfoldable pub uint : ℕ → Value
unfolding int decimal
uint value = if ltb value (2 ^ 63) then int (pos value) else num (Number.big_int (decimal value))

unfoldable pub as_str : Value → Option String
as_str (str s) = some s
as_str _ = none

unfoldable pub str_of : Value → String → Option String
unfolding as_str get
str_of value key = get value key >>= as_str

-- `u64::try_from` of an `i64`.
unfoldable pub as_u64 : Value → Option ℕ
as_u64 (num (Number.int (pos n))) = some n
as_u64 _ = none

unfoldable pub u64_of : Value → String → Option ℕ
unfolding as_u64 get
u64_of value key = get value key >>= as_u64

unfoldable pub as_bool : Value → Option Bool
as_bool (bool b) = some b
as_bool _ = none

unfoldable pub bool_of : Value → String → Option Bool
unfolding as_bool get
bool_of value key = get value key >>= as_bool

unfoldable pub as_array : Value → Option (List Value)
as_array (arr vs) = some (values vs)
as_array _ = none

unfoldable pub array_of : Value → String → Option (List Value)
unfolding as_array get
array_of value key = get value key >>= as_array

unfoldable pub members : Value → Option (List (String × Value))
members (obj ms) = some (pairs ms)
members _ = none

abbrev pub contains : List String → String → Bool
contains names name = any (str_eq name) names

-- team_protocol::python::value::has_exactly: as many members as fields, each named by a field.
unfoldable pub has_exactly : Value → List String → Bool
unfolding members
has_exactly value fields = elim (members value) [
  | none ↦ false
  | some ms ↦ (length ms == length fields) && all (λ m. contains fields m.0) ms
]
