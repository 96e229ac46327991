-- ===== src/Tools/Browser.antt =====
-- runtime/src/tools/browser.rs: the chat agent's one Browser tool.
pub mod Laws
use shimpz_brain.Base.{
  String, str_eq, Bool, true, false, not, ◌&&◌, Option, none, some, List, [], ◌∷◌, any, is_nil,
  if◌then◌else◌, ◌>>=◌, Result, ok, err,
}
use shimpz_brain.Json.Types.{Value, get}
use shimpz_brain.Json.{has_exactly}
use shimpz_brain.Conversation.{ToolCall, AssistantMessage, Message, user, assistant, tool}
use shimpz_brain.Errors.{BrainError, contract, Review}
use shimpz_brain.Team.{Team}
use shimpz_brain.Turn.Context.{TurnContext, carries_any}
use shimpz_brain.Tools.Refusal.{LoneCall, absent, mixed, alone, latest, lone_call}

abbrev pub tool_name : String
tool_name = "browser"

abbrev pub correction : String
correction =
    "The browser was not called: give one self-contained objective of at most 2,000 characters naming the site or search, every value to use, and what to report back."

abbrev pub alone_text : String
alone_text =
    "The browser must be the only tool call of a response. Call it again alone, or answer without it."

abbrev pub after_text : String
after_text =
    "The browser task is done and its result is above. Do not call any tool; write the reply to the person now."

-- Whether a turn offers the Browser.
unfoldable pub offered : TurnContext → Bool
offered context =
    context.browser
    && not (carries_any context.attachments)
    && not context.routine_mode
    && not context.routine_settings_answer

abbrev objective_fields : List String
objective_fields = "objective" ∷ []

unfoldable pub objective : Team → Value → Result String String
objective team arguments =
    let found = get arguments "objective" >>= team.canonical_objective in
    if not (has_exactly arguments objective_fields)
    then err correction
    else elim found [ none ↦ err correction | some text ↦ ok text ]

alone_verdict : LoneCall → Option String
alone_verdict mixed = some alone_text
alone_verdict _ = none

-- The guard refusing a browser call beside any other call.
unfoldable pub review_alone : List Message → Review
unfolding alone_verdict
review_alone messages = elim (lone_call messages tool_name) [
  | err e ↦ err e
  | ok found ↦ ok (alone_verdict found)
]

-- The guard of the pass after a browser result.
unfoldable pub review_after : List Message → Review
review_after messages = ok (elim (latest messages) [
  | none ↦ none
  | some turn ↦ if is_nil turn.calls then none else some after_text
])

-- Whether a message is a browser call or its result.
unfoldable pub read : Message → Bool
read (tool result) = str_eq result.name tool_name
read (assistant turn) = any (λ c. str_eq (ToolCall.name c) tool_name) turn.calls
read (user id text) = false
