-- ===== src/Tools/Refusal.antt =====
-- runtime/src/tools/refusal.rs: the latest response's one call to a guarded tool.
pub mod Laws
use shimpz_brain.Base.{
  String, str_eq, Bool, true, false, not, ◌||◌, Option, none, some, List, [], ◌∷◌, any, last,
  is_nil, if◌then◌else◌, ◌>>=◌, Result, ok, err,
}
use shimpz_brain.Conversation.{ToolCall, InvalidCall, AssistantMessage, Message, as_assistant}
use shimpz_brain.Errors.{BrainError, contract}

abbrev pub unparsable : String
unparsable = "the model returned an unparsable tool call"

pub data LoneCall : Type 0 where
  absent mixed : LoneCall
  alone : ToolCall → LoneCall

-- `messages.last().and_then(Message::assistant)`.
unfoldable pub latest : List Message → Option AssistantMessage
unfolding as_assistant
latest messages = last messages >>= as_assistant

unfoldable pub names_tool : List ToolCall → List InvalidCall → String → Bool
names_tool calls invalid tool =
    any (λ c. str_eq (ToolCall.name c) tool) calls
    || any (λ c. str_eq (InvalidCall.name c) tool) invalid

unfoldable pub lone_of : List ToolCall → LoneCall
lone_of (call ∷ []) = alone call
lone_of _ = mixed

unfoldable pub lone_among : List ToolCall → List InvalidCall → String → Result LoneCall BrainError
lone_among calls invalid tool =
    if not (names_tool calls invalid tool)
    then ok absent
    else if not (is_nil invalid)
    then err (contract unparsable)
    else ok (lone_of calls)

unfoldable pub lone_call : List Message → String → Result LoneCall BrainError
unfolding latest
lone_call messages tool = elim (latest messages) [
  | none ↦ ok absent
  | some turn ↦ lone_among turn.calls turn.invalid_calls tool
]
