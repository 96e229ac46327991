-- ===== src/Text.antt =====
-- runtime/src/text.rs: text admission over Python's text semantics, and hexadecimal digits.
use Prim.Native.String.{count, ◌++◌ as str_append}
use shimpz_brain.Base.{
  ℕ, zero, suc, ◌/◌, ◌%◌, String, Char, code, str_eq, starts_with, Bool, true, false, not, ◌&&◌,
  ◌||◌, List, [], ◌∷◌, ltb, ◌==◌, if◌then◌else◌,
}
use shimpz_brain.Python.{Python}

abbrev pub is_layout : Char → Bool
is_layout c = code c == 10 || code c == 13 || code c == 9

-- `chars().filter(..).collect()`.
abbrev pub filter_char : (Char → Bool) → String → String
filter_char p String.[] = ""
filter_char p (String.◌∷◌ c s) =
    let rest = filter_char p s in if p c then String.◌∷◌ c rest else rest

abbrev pub any_char : (Char → Bool) → String → Bool
any_char p String.[] = false
any_char p (String.◌∷◌ c s) = p c || any_char p s

module _ (py : Python) where
  unfoldable pub admitted : String → ℕ → Bool → Bool → Bool
  admitted value max empty layout =
      let length = count value in
      let least = if empty then 0 else 1 in
      if not (py.is_nfc value)
        || not (str_eq (py.strip value) value)
        || ltb length least
        || ltb max length
      then false
      else if py.isprintable value
      then true
      else if layout && py.isprintable (filter_char (λ c. not (is_layout c)) value)
      then true
      else not (
          any_char
            (λ c.
              starts_with (py.category c) "C"
              && (not layout || (not (str_eq (py.category c) "Cf") && not (is_layout c))))
            value)

  unfoldable pub printable_with_layout : String → Bool
  printable_with_layout value =
      py.isprintable (filter_char (λ c. not (code c == 10) && not (code c == 9)) value)

-- The character of `DIGITS` at an index.
abbrev pub digit_at : ℕ → String → String
digit_at n String.[] = ""
digit_at zero (String.◌∷◌ c s) = String.◌∷◌ c String.[]
digit_at (suc n) (String.◌∷◌ c s) = digit_at n s

abbrev pub hex_digit : ℕ → String
hex_digit n = digit_at n "0123456789abcdef"

-- Two digits a byte.
unfoldable pub hex : List ℕ → String
hex [] = ""
hex (b ∷ bytes) = str_append (hex_digit (b / 16)) (str_append (hex_digit (b % 16)) (hex bytes))
