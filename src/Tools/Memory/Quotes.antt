-- ===== src/Tools/Memory/Quotes.antt =====
-- Only the person's own words become a memory change (runtime/src/tools/memory.rs).
use Prim.Native.String.{count}
use Prim.Native.String.{◌++◌ as str_append}
use text.Mathlib.TextEquality.{starts_with_iff}
use text.Mathlib.TextLemmas.{nil-append, cons-append}
use shimpz_brain.Base.{
  sym, ◌∙◌, ◌≤◌, String, str_eq, starts_with, true, Option, none, some, List, [], ◌∷◌, ◌++◌, ◌≡◌,
  ◌⊎◌, inl, inr, refl, ap, filter_map, All, unwrap_or, arith, Option-cases, Bool-cases, eq_iff,
}
use shimpz_brain.Json.Types.{Value, null, str, get}
use shimpz_brain.Conversation.{ToolCall, Message}
use shimpz_brain.Python.{Python}
use shimpz_brain.Team.{Team}
use shimpz_brain.Tools.Memory.{
  Change, str_contains, since_user, quote_line, comparable, own_words, current_message, change,
  proposed_in, proposed, max_preference_chars, min_quote_chars,
}

-- The messages split at the last user message, whose tail has no other.
since_user_split :
    (ms turn : List Message)
    → since_user ms ≡ some turn
    → (earlier : List Message) × (ms ≡ earlier ++ turn)
unfolding since_user
since_user_split [] turn h = absurd (cc)
since_user_split (m ∷ ms) turn h = elim (Option-cases (since_user ms)) [
  | inl e ↦ ([], ground arith)
  | inr (later, e) ↦
      let found : later ≡ turn = ground arith in
      let (earlier, same) = since_user_split ms turn (ground arith) in
      (m ∷ earlier, ap (λ (r : List Message). m ∷ r) same)
]

-- A text found in another stands in it, with a text before and one after.
abbrev pub Within : String → String → Type 0
Within needle hay =
    (before : String) × (after : String) × (hay ≡ str_append before (str_append needle after))

str_contains-Within : (hay needle : String) → str_contains hay needle ≡ true → Within needle hay
unfolding str_contains
str_contains-Within String.[] needle h =
    let (after, same) = (starts_with_iff _ _).0 h in ("", after, sym same ∙ sym (nil-append _))
str_contains-Within (String.◌∷◌ c s) needle h =
    elim (Bool-cases (starts_with (String.◌∷◌ c s) needle)) [
      | inl e ↦
          let (after, same) = (starts_with_iff _ _).0 e in
          ("", after, sym same ∙ sym (nil-append _))
      | inr e ↦
          let (before, after, same) = str_contains-Within s needle (ground arith) in
          (String.◌∷◌ c before, after, ap (String.◌∷◌ c) same ∙ sym (cons-append c before _))
    ]

All-filter_map {ℓ κ μ} :
    {A : Type ℓ} {B : Type κ} (P : B → Type μ) (f : A → Option B)
    → ((x : A) (y : B) → f x ≡ some y → P y)
    → (xs : List A) → All P (filter_map f xs)
All-filter_map P f h [] = tt
All-filter_map {A} {B} P f h (x ∷ xs) = step (f x) refl (All-filter_map P f h xs)
  where
    step :
        (o : Option B)
        → f x ≡ o
        → All P (filter_map f xs)
        → All P (elim o [ none ↦ filter_map f xs | some y ↦ y ∷ filter_map f xs ])
    step none e rest = rest
    step (some y) e rest = (h x y e, rest)

module _ (py : Python) (team : Team) where
  -- What a change to a turn's memory must be: a quote of the current message's own words.
  pub record IsOwnWords (current : Option String) (c : Change) : Type 0 where
    pub quote : String
    pub message : String
    pub words : String
    pub is_current : current ≡ some message
    pub own : own_words py team message ≡ some words
    pub quoted : Within (comparable py team quote) words
    pub long_enough : min_quote_chars ≤ count (comparable py team quote)
    pub bounded : count quote ≤ max_preference_chars
    pub kept :
        ((c.op ≡ "remember") × (c.preference ≡ quote)) ⊎ ((c.op ≡ "forget") × (c.preference ≡ ""))

  quote_line_bounds :
      (v : Value) (quote : String)
      → quote_line py team v ≡ some quote
      → count quote ≤ max_preference_chars
  unfolding quote_line
  quote_line_bounds (str s) quote h = ground arith
  quote_line_bounds _ quote h = absurd (cc)

  -- The parts of an admitted change.
  abbrev quote_of : Value → String
  quote_of arguments = unwrap_or (quote_line py team (unwrap_or (get arguments "quote") null)) ""

  change_parts :
      (arguments : Value) (current : Option String) (c : Change)
      → change py team arguments current ≡ some c
      → let quote = quote_of arguments in
        let message = unwrap_or current "" in
        let words = unwrap_or (own_words py team message) "" in
        (quote_line py team (unwrap_or (get arguments "quote") null) ≡ some quote)
        × (current ≡ some message)
        × (own_words py team message ≡ some words)
        × (str_contains words (comparable py team quote) ≡ true)
        × (min_quote_chars ≤ count (comparable py team quote))
        × (((str_eq c.op "remember" ≡ true) × (c.preference ≡ quote))
            ⊎ ((str_eq c.op "forget" ≡ true) × (c.preference ≡ "")))
  unfolding change
  change_parts arguments current c h =
      (ground arith, ground arith, ground arith, ground arith, ground arith, ground arith)

  change-IsOwnWords :
      (arguments : Value) (current : Option String) (c : Change)
      → change py team arguments current ≡ some c
      → IsOwnWords current c
  change-IsOwnWords arguments current c h =
      let (line, now, own, inside, long, kept) = change_parts arguments current c h in
      record {
        quote = quote_of arguments;
        message = unwrap_or current "";
        words = unwrap_or (own_words py team (unwrap_or current "")) "";
        is_current = now;
        own = own;
        quoted = str_contains-Within _ _ inside;
        long_enough = long;
        bounded = quote_line_bounds _ _ line;
        kept = elim kept [
          | inl (e, p) ↦ inl ((eq_iff _ _).0 e, p)
          | inr (e, p) ↦ inr ((eq_iff _ _).0 e, p)
        ];
      }

  -- Every change the current turn proposes quotes the message that started it: the quote, compared
  -- without case and spacing, stands word for word among that message's unquoted words, and what is
  -- remembered is the quote itself.
  pub proposed-IsOwnWords :
      (messages : List Message)
      → (proposed py team messages ≡ [])
        ⊎ ((earlier : List Message) × (turn : List Message) × (messages ≡ earlier ++ turn)
            × All (IsOwnWords (current_message py team turn)) (proposed py team messages))
  unfolding proposed proposed_in
  proposed-IsOwnWords messages = elim (Option-cases (since_user messages)) [
    | inl e ↦ inl (ground arith)
    | inr (turn, e) ↦
        let (earlier, same) = since_user_split messages turn e in
        let current = current_message py team turn in
        inr (
          earlier,
          turn,
          same,
          rw (e, proposed)
              (All-filter_map (IsOwnWords current)
                (λ c. change py team (ToolCall.arguments c) current)
                (λ c d. change-IsOwnWords (ToolCall.arguments c) current d) _),
        )
  ]
