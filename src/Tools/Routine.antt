-- ===== src/Tools/Routine.antt =====
-- runtime/src/tools/routine.rs: the Routine guard and the recorded Routine. What a call records
-- (`record`, with the call handles of the turn), its corrections, and the rerun guard are arguments.
use shimpz_brain.Base.{
  String, str_eq, Option, some, List, [], ◌∷◌, last, ◌>>=◌, ◌>>◌, then_some, Result, ok, err,
}
use shimpz_brain.Json.Types.{Value, get}
use shimpz_brain.Json.{str_of, has_exactly}
use shimpz_brain.Conversation.{ToolMessage, Message, as_tool}
use shimpz_brain.Errors.{BrainError, Review}
use shimpz_brain.Python.{Python}
use shimpz_brain.Turn.Context.{TurnContext}
use shimpz_brain.Tools.Refusal.{LoneCall, absent, mixed, alone, lone_call}

abbrev pub tool_name : String
tool_name = "shimpz_routine"

pub data Verdict : Type 0 where
  pass : Verdict
  refuse : String → Verdict
  recording : String → Verdict

pub record RoutineTool : Type 0 where
  pub record_call : Value → TurnContext → List Message → Result Value String
  pub correction : String → String
  pub rerun_review : List Message → List Value → List String → Review

module _ (py : Python) (tool : RoutineTool) where
  verdict_of : LoneCall → List Message → TurnContext → Verdict
  verdict_of absent messages context = pass
  verdict_of mixed messages context = refuse (tool.correction "mixed")
  verdict_of (alone call) messages context =
      elim (tool.record_call call.arguments context messages) [
        | ok outcome ↦ recording (py.compact outcome)
        | err field ↦ refuse (tool.correction field)
      ]

  unfoldable pub review : List Message → TurnContext → Result Verdict BrainError
  unfolding verdict_of
  review messages context = elim (lone_call messages tool_name) [
    | err e ↦ err e
    | ok found ↦ ok (verdict_of found messages context)
  ]

  record_in : ToolMessage → Option (String × Value)
  record_in result = do
    then_some (str_eq result.name tool_name)
    value ← py.parse result.content
    then_some (has_exactly value ("routine" ∷ "reply" ∷ []))
    reply ← str_of value "reply"
    routine ← get value "routine"
    some (reply, routine)

  -- The reply and record of a Routine that ended the turn.
  unfoldable pub recorded : List Message → Option (String × Value)
  unfolding record_in
  recorded messages = last messages >>= as_tool >>= record_in
