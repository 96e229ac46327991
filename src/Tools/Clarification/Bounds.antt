-- ===== src/Tools/Clarification/Bounds.antt =====
-- What an admitted clarification is (runtime/src/tools/clarification.rs).
use Prim.Native.String.{count}
use shimpz_brain.Base.{
  ℕ, str_eq, eq_iff, any, ap, length-map, ◌≤◌, ◌<◌, String, Bool, true, false, Option, none, some,
  List, [], ◌∷◌, ◌≡◌, ◌⊎◌, inl, inr, length, map, collect, All, All-collect, collect-length,
  is_empty, Result, ok, err, refl, arith, unwrap_or, Bool-cases, Option-cases,
}
use shimpz_brain.Json.Types.{Value, null, str, get}
use shimpz_brain.Json.{u64_of, array_of}
use shimpz_brain.Conversation.{ToolCall, Message}
use shimpz_brain.Errors.{BrainError}
use shimpz_brain.Python.{Python}
use shimpz_brain.Team.{Team}
use shimpz_brain.Tools.Refusal.{LoneCall, absent, mixed, alone, lone_call}
use shimpz_brain.Tools.Clarification.{
  ClarifyOption, Clarification, tool_name, line_text, line, option, parse, distinct_labels, set_of,
  team_owned, review, max_question_chars, max_label_chars, max_description_chars, min_options,
  max_options,
}

-- No text equals a later one.
abbrev pub Distinct : List String → Type 0
Distinct [] = Unit
Distinct (s ∷ ss) = (any (str_eq s) ss ≡ false) × Distinct ss

any_same :
    (s t : String) (ss : List String) → str_eq s t ≡ true → any (str_eq s) ss ≡ any (str_eq t) ss
any_same s t ss h = ap (λ (r : String). any (str_eq r) ss) ((eq_iff s t).0 h)

any-set_of : (s : String) (ss : List String) → any (str_eq s) (set_of ss) ≡ any (str_eq s) ss
any-set_of s [] = refl
any-set_of s (t ∷ ss) = elim (Bool-cases (str_eq s t)) [
  | inr e ↦ ground (arith, any-set_of s ss)
  | inl e ↦ ground (arith, any-set_of s ss, any-set_of t ss, any_same s t ss e)
]

length-set_of : (ss : List String) → length (set_of ss) ≤ length ss
length-set_of [] = omega arith
length-set_of (s ∷ ss) = ground (arith, length-set_of ss)

Distinct-of_length : (ss : List String) → length (set_of ss) ≡ length ss → Distinct ss
Distinct-of_length [] h = tt
Distinct-of_length (s ∷ ss) h = (
  ground (arith, length-set_of ss, any-set_of s ss),
  Distinct-of_length ss (ground (arith, length-set_of ss)),
)

module _ (py : Python) where
  -- A shown text: within its bound, and not empty unless it may be.
  abbrev pub IsLine : ℕ → Bool → String → Type 0
  IsLine maximum empty s = (count s ≤ maximum) × ((is_empty s ≡ false) ⊎ (empty ≡ true))

  line_bounds :
      (v : Value) (maximum : ℕ) (empty : Bool) (s : String)
      → line py v maximum empty ≡ some s
      → IsLine maximum empty s
  unfolding line line_text
  line_bounds (str raw) maximum empty s h = ground arith
  line_bounds _ maximum empty s h = absurd (cc)

  abbrev pub IsOption : ClarifyOption → Type 0
  IsOption o =
      IsLine max_label_chars false o.label × IsLine max_description_chars true o.description

  option_parts :
      (v : Value) (o : ClarifyOption)
      → option py v ≡ some o
      → (label : Value) × (description : Value) × (line py label max_label_chars false
          ≡ some o.label)
        × (line py description max_description_chars true ≡ some o.description)
  unfolding option
  option_parts v o h = (
    unwrap_or (get v "label") null,
    unwrap_or (get v "description") null,
    ground arith,
    ground arith,
  )

  option-IsOption : (v : Value) (o : ClarifyOption) → option py v ≡ some o → IsOption o
  option-IsOption v o h =
      let (label, description, p, q) = option_parts v o h in
      (line_bounds label _ _ _ p, line_bounds description _ _ _ q)

  pub record IsClarification (c : Clarification) : Type 0 where
    pub question_line : IsLine max_question_chars false c.question
    pub option_lines : All IsOption c.options
    pub at_least : min_options ≤ length c.options
    pub at_most : length c.options ≤ max_options
    pub recommended : (index : ℕ) × (c.default_index ≡ some index) × (index < length c.options)
    pub labels_distinct : Distinct (map (λ o. py.casefold (ClarifyOption.label o)) c.options)

  labels_Distinct :
      (options : List ClarifyOption)
      → distinct_labels py options ≡ true
      → Distinct (map (λ o. py.casefold (ClarifyOption.label o)) options)
  unfolding distinct_labels
  labels_Distinct options h =
      Distinct-of_length _
        (ground (arith, length-map (λ o. py.casefold (ClarifyOption.label o)) options))

  parse_parts :
      (v : Value) (c : Clarification)
      → parse py v ≡ some c
      → (question : Value) × (raw : List Value) × (index : ℕ) × (line py question max_question_chars
            false
          ≡ some c.question)
        × (collect (option py) raw ≡ some c.options)
        × (min_options ≤ length raw)
        × (length raw ≤ max_options)
        × (c.default_index ≡ some index)
        × (index < length c.options)
        × (distinct_labels py c.options ≡ true)
  unfolding parse
  parse_parts v c h = (
    unwrap_or (get v "question") null,
    unwrap_or (array_of v "options") [],
    unwrap_or (u64_of v "default_index") 0,
    ground arith,
    ground arith,
    ground arith,
    ground arith,
    ground arith,
    ground arith,
    ground arith,
  )

  -- Whatever arguments the model writes, an admitted clarification has one bounded question, two to
  -- five options with bounded labels and descriptions, labels that differ after case folding, and a
  -- recommended index that points to one of its options.
  pub parse-IsClarification :
      (v : Value) (c : Clarification) → parse py v ≡ some c → IsClarification c
  parse-IsClarification v c h =
      let (question, raw, index, p, q, low, high, d, lt, distinct) = parse_parts v c h in
      let same = collect-length (option py) raw c.options q in
      record {
        question_line = line_bounds question _ _ _ p;
        option_lines = All-collect IsOption (option py) option-IsOption raw c.options q;
        at_least = omega (arith, same);
        at_most = omega (arith, same);
        recommended = (index, d, lt);
        labels_distinct = labels_Distinct c.options distinct;
      }

  module _ (team : Team) where
    -- The guard lets a response through that calls the tool only when it is the start of the turn,
    -- the call stands alone and is a clarification, and in a Routine turn it asks nothing that is
    -- Team's to ask.
    pub clarification_review_pass :
        (messages : List Message) (allowed routine_mode : Bool) (locale : Option String)
        → review py team messages allowed routine_mode locale ≡ ok none
        → (lone_call messages tool_name ≡ ok absent)
          ⊎ ((call : ToolCall) × (asked : Clarification) × (lone_call messages tool_name
                ≡ ok (alone call))
              × (allowed ≡ true)
              × (parse py call.arguments ≡ some asked)
              × IsClarification asked
              × ((routine_mode ≡ false) ⊎ (team_owned py team asked locale ≡ false)))
    unfolding review
    clarification_review_pass messages allowed routine_mode locale h =
        review_cases (lone_call messages tool_name) refl
      where
        review_cases :
            (r : Result LoneCall BrainError)
            → lone_call messages tool_name ≡ r
            → (lone_call messages tool_name ≡ ok absent)
              ⊎ ((call : ToolCall) × (asked : Clarification) × (lone_call messages tool_name
                    ≡ ok (alone call))
                  × (allowed ≡ true)
                  × (parse py call.arguments ≡ some asked)
                  × IsClarification asked
                  × ((routine_mode ≡ false) ⊎ (team_owned py team asked locale ≡ false)))
        review_cases (err e) q = absurd (ground arith)
        review_cases (ok absent) q = inl q
        review_cases (ok mixed) q = absurd (ground arith)
        review_cases (ok (alone call)) q = elim (Option-cases (parse py call.arguments)) [
          | inl e ↦ absurd (ground arith)
          | inr (asked, e) ↦ inr (
            call,
            asked,
            q,
            ground arith,
            e,
            parse-IsClarification call.arguments asked e,
            ground arith,
          )
        ]
