-- ===== src/Server/Turns/Quoted.antt =====
-- The history that an admitted start quotes: runtime/src/server/turn_input.rs, `conversation_shape`
-- and `admit_conversation`.
use Prim.Native.String.{count}
use shimpz_brain.Base.{
  ℕ, str_eq, ◌≤◌, ◌≡◌, refl, subst, arith, String, Bool, true, false, not, ◌||◌, Option, some, none,
  List, [], ◌∷◌, any, ltb, All, length, ok,
}
use shimpz_brain.Base.Results.{>>=-eq-ok}
use shimpz_brain.Json.Types.{Value, null, bool, num, str, arr, obj, get}
use shimpz_brain.Text.{admitted}
use shimpz_brain.Turn.Prepare.Inputs.{ConversationEntry}
use shimpz_brain.Server.Input.{require, usize_max, boolean, list, string_in, closed, string}
use shimpz_brain.Server.Turns.{
  max_conversation_entries, entry_fields, entry_shape, max_conversation_text_chars,
  max_conversation_chars, conversation_shape, entry_chars, admit_conversation,
}
use shimpz_brain.Server.Turns.Assistants.{Front, each}
use shimpz_brain.Server.Turns.Assistants.Bounds.{each-length, list_in_few}
use shimpz_brain.Server.Turns.Bounds.{All-each, else_ok}

pub or_left : (a b : Bool) → a || b ≡ false → a ≡ false
or_left true b h = absurd (ground arith)
or_left false b h = refl

pub or_right : (a b : Bool) → a || b ≡ false → b ≡ false
or_right true b h = absurd (ground arith)
or_right false b h = h

any-not-All :
    {A : Type 0} (p : A → Bool) (xs : List A)
    → any (λ x. not (p x)) xs ≡ false
    → All (λ x. p x ≡ true) xs
any-not-All p [] h = tt
any-not-All p (x ∷ xs) h =
    let first = or_left (not (p x)) (any (λ y. not (p y)) xs) h in
    (ground (arith, first), any-not-All p xs (or_right (not (p x)) (any (λ y. not (p y)) xs) h))

-- A string that is read has at most the characters allowed.
pub string_short :
    (o : Option Value) (min max : ℕ) (words : String)
    → string_in o min max ≡ ok words
    → count words ≤ max
unfolding string_in
string_short none min max words h = absurd (ground arith)
string_short (some null) min max words h = absurd (ground arith)
string_short (some (bool b)) min max words h = absurd (ground arith)
string_short (some (num n)) min max words h = absurd (ground arith)
string_short (some (str s)) min max words h = ground (arith, h)
string_short (some (arr vs)) min max words h = absurd (ground arith)
string_short (some (obj ms)) min max words h = absurd (ground arith)

abbrev pub of_role : ConversationEntry → Bool
of_role entry = str_eq entry.role "user" || str_eq entry.role "assistant"

-- An entry as it is read: of the user or the assistant, and at most 512 characters.
abbrev pub IsEntry : ConversationEntry → Type 0
IsEntry entry = (of_role entry ≡ true) × (count entry.text ≤ max_conversation_text_chars)

required : (b : Bool) (u : Unit {0}) → require b ≡ ok u → b ≡ true
required true u h = refl
required false u h = absurd (ground arith)

entry_shape-IsEntry :
    (value : Value) (entry : ConversationEntry) → entry_shape value ≡ ok entry → IsEntry entry
unfolding entry_shape string
entry_shape-IsEntry value entry h =
    let (_, _, h1) = >>=-eq-ok (closed value entry_fields entry_fields) _ h in
    let (role, _, h2) = >>=-eq-ok (string value "role" 0 usize_max) _ h1 in
    let (_, allowed, h3) =
      >>=-eq-ok (require (str_eq role "user" || str_eq role "assistant")) _ h2 in
    let (words, read, h4) = >>=-eq-ok (string value "text" 1 max_conversation_text_chars) _ h3 in
    let (truncated, _, last) = >>=-eq-ok (boolean value "truncated") _ h4 in
    let found : ConversationEntry = record { role = role; text = words; truncated = truncated } in
    let same : found ≡ entry = ground arith in
    subst (λ (e : ConversationEntry). IsEntry e) same
      (
        required (str_eq role "user" || str_eq role "assistant") _ allowed,
        string_short (get value "text") 1 max_conversation_text_chars words read,
      )

module _ (front : Front) where
  -- The quoted history: few entries, each short, of a known role and of admitted text, and
  -- short together.
  pub record IsQuoted (entries : List ConversationEntry) : Type 0 where
    pub few : length entries ≤ max_conversation_entries
    pub read : All IsEntry entries
    pub shown :
        All
          (λ (entry : ConversationEntry).
            admitted front.py entry.text max_conversation_text_chars false true ≡ true)
          entries
    pub chars : entry_chars entries ≤ max_conversation_chars

  shape_parts :
      (body : Value) (shown : List ConversationEntry)
      → conversation_shape body ≡ ok shown
      → (length shown ≤ max_conversation_entries) × All IsEntry shown
  unfolding conversation_shape list
  shape_parts body shown h =
      let (items, listed, read) =
        >>=-eq-ok (list body "conversation" 0 max_conversation_entries) (each entry_shape) h in
      (
        rw (each-length entry_shape items shown read)
            (list_in_few (get body "conversation") max_conversation_entries items listed),
        All-each IsEntry entry_shape entry_shape-IsEntry items shown read,
      )

  pub conversation-IsQuoted :
      (body : Value) (shown kept : List ConversationEntry)
      → conversation_shape body ≡ ok shown
      → admit_conversation front shown ≡ ok kept
      → IsQuoted kept
  unfolding admit_conversation
  conversation-IsQuoted body shown kept read h =
      let good : ConversationEntry → Bool =
        λ entry. admitted front.py entry.text max_conversation_text_chars false true in
      let (few, roles) = shape_parts body shown read in
      let (fine, same) =
        else_ok
          (any (λ (entry : ConversationEntry). not (good entry)) shown
            || ltb max_conversation_chars (entry_chars shown))
          "invalid conversation window" shown kept h in
      subst (λ (l : List ConversationEntry). IsQuoted l) same
        (record {
          few = few;
          read = roles;
          shown = any-not-All good shown (or_left _ _ fine);
          chars = ground (
            arith,
            or_right (any (λ (entry : ConversationEntry). not (good entry)) shown) _ fine,
          );
        })
