-- ===== src/Tools/Action/Bounds.antt =====
-- The lengths of what an Action's tool shows the model provider (runtime/src/tools/action.rs).
use Prim.Native.String.{count, ◌++◌ as str_append}
use Prim.Native.String.count
use text.Mathlib.TextLemmas.{length-append as count-append}
use shimpz_brain.Base.{
  ℕ, zero, suc, ◌*◌, ◌/◌, ◌%◌, ◌≤◌, String, List, [], ◌∷◌, ◌≡◌, refl, arith, length, take,
}
use shimpz_brain.Text.{hex, hex_digit, digit_at}
use shimpz_brain.Tools.Action.{take_chars, tool_name, slug, underscored}

pub count-take_chars : (n : ℕ) (s : String) → count (take_chars n s) ≤ n
count-take_chars zero s = omega (arith, count.nil)
count-take_chars (suc n) String.[] = omega (arith, count.nil)
count-take_chars (suc n) (String.◌∷◌ c s) =
    omega (arith, count.cons c (take_chars n s), count-take_chars n s)

length-take : {A : Type 0} (n : ℕ) (xs : List A) → length (take n xs) ≤ n
length-take zero xs = omega arith
length-take (suc n) [] = omega arith
length-take (suc n) (x ∷ xs) = omega (arith, length-take n xs)

count-digit_at : (n : ℕ) (s : String) → count (digit_at n s) ≤ 1
count-digit_at n String.[] = omega (arith, count.nil)
count-digit_at zero (String.◌∷◌ c s) = omega (arith, count.cons c String.[], count.nil)
count-digit_at (suc n) (String.◌∷◌ c s) = count-digit_at n s

count-hex : (bytes : List ℕ) → count (hex bytes) ≤ 2 * length bytes
unfolding hex
count-hex [] = omega (arith, count.nil)
count-hex (b ∷ bytes) = omega (
  arith,
  count-append (hex_digit (b / 16)) (str_append (hex_digit (b % 16)) (hex bytes)),
  count-append (hex_digit (b % 16)) (hex bytes),
  count-digit_at (b / 16) "0123456789abcdef",
  count-digit_at (b % 16) "0123456789abcdef",
  count-hex bytes,
)

-- The provider accepts a tool name of at most 64 characters: whatever the ids and their digest, an
-- Action's name has at most 60.
pub tool_name_bound :
    (sha256 : String → List ℕ) (assistant_id action_id : String)
    → count (tool_name sha256 assistant_id action_id) ≤ 60
unfolding tool_name
tool_name_bound sha256 assistant_id action_id =
    let digest = sha256 (str_append assistant_id (str_append "\0" action_id)) in
    let bytes = take 8 digest in
    let tail = str_append (slug action_id) (str_append "__" (hex bytes)) in
    let two : count "a_" ≡ 2 = refl in
    let four : count "__a_" ≡ 4 = refl in
    let last : count "__" ≡ 2 = refl in
    omega (
      arith,
      two,
      four,
      last,
      count-append "a_" (str_append (slug assistant_id) (str_append "__a_" tail)),
      count-append (slug assistant_id) (str_append "__a_" tail),
      count-append "__a_" tail,
      count-append (slug action_id) (str_append "__" (hex bytes)),
      count-append "__" (hex bytes),
      count-take_chars 18 (underscored assistant_id),
      count-take_chars 18 (underscored action_id),
      count-hex bytes,
      length-take 8 digest,
    )
