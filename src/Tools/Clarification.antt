-- ===== src/Tools/Clarification.antt =====
-- runtime/src/tools/clarification.rs: the one multiple-choice question that may end a turn.
pub mod Bounds
use Prim.Native.String.{count}
use Prim.Native.String
use shimpz_brain.Base.{
  ℕ, String, Char, str_eq, Bool, true, false, not, ◌&&◌, ◌||◌, Option, none, some, List, [], ◌∷◌,
  any, all, length, map, collect, ltb, leb, ◌==◌, is_empty, if◌then◌else◌, ◌>>=◌, ◌>>◌, then_some,
  Result, ok, err, unwrap_or,
}
use shimpz_brain.Json.Types.{Value, null, str, get}
use shimpz_brain.Json.{object, array, text, uint, u64_of, array_of, has_exactly}
use shimpz_brain.Conversation.{
  ToolCall, AssistantMessage, ToolMessage, Message, assistant, tool, as_assistant,
}
use shimpz_brain.Errors.{BrainError, Review}
use shimpz_brain.Python.{Python}
use shimpz_brain.Team.{Team}
use shimpz_brain.Tools.Refusal.{LoneCall, absent, mixed, alone, lone_call}

abbrev pub tool_name : String
tool_name = "shimpz_clarify"

abbrev pub mixed_text : String
mixed_text =
    "Not executed: a clarification cannot be combined with any other tool call. Either ask one question alone or proceed with the request."

abbrev pub after_action : String
after_action =
    "Not executed: an Action already ran in this request, so no clarification can be asked now. Finish the request with what you have and state what remains open."

abbrev pub invalid_text : String
invalid_text =
    "Not executed: the clarification must have one single-line question, two to five distinct single-line options, and a default_index that points to one of them."

abbrev pub team_owned_text : String
team_owned_text =
    "Not asked: the Team asks the schedule, the output, and limits itself; continue the work and call record."

abbrev pub recorded_text : String
recorded_text =
    "Question recorded; it is shown to the user with a free-text option and ends this turn."

abbrev pub max_question_chars : ℕ
max_question_chars = 240

abbrev pub max_label_chars : ℕ
max_label_chars = 80

abbrev pub max_description_chars : ℕ
max_description_chars = 160

abbrev pub min_options : ℕ
min_options = 2

abbrev pub max_options : ℕ
max_options = 5

pub record ClarifyOption : Type 0 where
  pub label : String
  pub description : String

pub record Clarification : Type 0 where
  pub question : String
  pub options : List ClarifyOption
  pub default_index : Option ℕ

-- `chars().any(..)`.
abbrev pub any_char : (Char → Bool) → String → Bool
any_char p String.[] = false
any_char p (String.◌∷◌ c s) = p c || any_char p s

-- A `HashSet` of texts, as the list of its members.
abbrev pub insert : String → List String → List String
insert s seen = if any (str_eq s) seen then seen else s ∷ seen

abbrev pub set_of : List String → List String
set_of [] = []
set_of (s ∷ ss) = insert s (set_of ss)

unsafe_category : String → Bool
unsafe_category c =
    str_eq c "Cc"
    || str_eq c "Cf"
    || str_eq c "Cs"
    || str_eq c "Co"
    || str_eq c "Cn"
    || str_eq c "Zl"
    || str_eq c "Zp"

module _ (py : Python) where
  unfoldable pub line_text : String → ℕ → Bool → Option String
  unfolding unsafe_category
  line_text raw maximum empty =
      let stripped = py.strip (py.nfc raw) in
      if (is_empty stripped && not empty) || ltb maximum (count stripped)
      then none
      else if any_char (λ c. unsafe_category (py.category c)) stripped
      then none
      else some stripped

  unfoldable pub line : Value → ℕ → Bool → Option String
  line (str raw) maximum empty = line_text raw maximum empty
  line _ maximum empty = none

  abbrev option_fields : List String
  option_fields = "label" ∷ "description" ∷ []

  unfoldable pub option : Value → Option ClarifyOption
  option value = do
    then_some (has_exactly value option_fields)
    label_value ← get value "label"
    label ← line label_value max_label_chars false
    description_value ← get value "description"
    description ← line description_value max_description_chars true
    some (record { label = label; description = description })

  abbrev fields : List String
  fields = "question" ∷ "options" ∷ "default_index" ∷ []

  unfoldable pub distinct_labels : List ClarifyOption → Bool
  distinct_labels options =
      length (set_of (map (λ o. py.casefold (ClarifyOption.label o)) options)) == length options

  -- `Clarification::parse`.
  unfoldable pub parse : Value → Option Clarification
  parse arguments = do
    then_some (has_exactly arguments fields)
    question_value ← get arguments "question"
    question ← line question_value max_question_chars false
    raw ← array_of arguments "options"
    then_some (leb min_options (length raw) && leb (length raw) max_options)
    options ← collect option raw
    index ← u64_of arguments "default_index"
    then_some (ltb index (length options))
    then_some (distinct_labels options)
    some (record { question = question; options = options; default_index = some index })

  module _ (team : Team) where
    -- `team_owned`: a reading that cannot complete counts as Team's.
    unfoldable pub team_owned : Clarification → Option String → Bool
    team_owned asked locale =
        any (λ t. unwrap_or (team.team_asks t locale) true)
          (asked.question ∷ map ClarifyOption.label asked.options)

    review_parsed : Option Clarification → Bool → Option String → Option String
    review_parsed none routine_mode locale = some invalid_text
    review_parsed (some asked) routine_mode locale =
        if routine_mode && team_owned asked locale then some team_owned_text else none

    review_lone : LoneCall → Bool → Bool → Option String → Option String
    unfolding review_parsed
    review_lone absent allowed routine_mode locale = none
    review_lone mixed allowed routine_mode locale = some mixed_text
    review_lone (alone call) allowed routine_mode locale =
        if not allowed
        then some after_action
        else review_parsed (parse call.arguments) routine_mode locale

    -- The clarification guard.
    unfoldable pub review : List Message → Bool → Bool → Option String → Review
    unfolding review_lone
    review messages allowed routine_mode locale = elim (lone_call messages tool_name) [
      | err e ↦ err e
      | ok found ↦ ok (review_lone found allowed routine_mode locale)
    ]

  -- The last two messages.
  abbrev pub last_two : List Message → Option (Message × Message)
  last_two [] = none
  last_two (m ∷ []) = none
  last_two (m ∷ n ∷ []) = some (m, n)
  last_two (m ∷ n ∷ k ∷ rest) = last_two (n ∷ k ∷ rest)

  recorded_calls : List ToolCall → Option Clarification
  recorded_calls (only ∷ []) = parse only.arguments
  recorded_calls _ = none

  recorded_pair : Message → Message → Option Clarification
  unfolding recorded_calls
  recorded_pair (assistant turn) (tool result) =
      if str_eq result.name tool_name then recorded_calls turn.calls else none
  recorded_pair _ _ = none

  -- The clarification that ended the turn.
  unfoldable pub recorded : List Message → Option Clarification
  unfolding recorded_pair
  recorded messages = elim (last_two messages) [
    | none ↦ none
    | some (call, result) ↦ recorded_pair call result
  ]

-- `Clarification::to_value` and `Clarification::render`.
unfoldable pub option_value : ClarifyOption → Value
option_value o = object (("label", text o.label) ∷ ("description", text o.description) ∷ [])

unfoldable pub default_value : Option ℕ → Value
default_value none = null
default_value (some index) = uint index

unfoldable pub clarification_value : Clarification → Value
clarification_value c = object (
    ("question", text c.question)
    ∷ ("options", array (map option_value c.options))
    ∷ ("default_index", default_value c.default_index)
    ∷ [])

unfoldable pub render : Team → Clarification → String
render team c = team.render_clarification (clarification_value c)
