-- ===== src/Turn/Drive.antt =====
-- The loop of a turn (`Turn::drive` of runtime/src/turn/definition.rs): call the model, review the
-- answer, answer or run its calls, and finish. The source's loop has no bound of its own; here it
-- takes fuel.
pub mod Steps
pub mod Termination
pub mod Answers
pub mod Memory
use shimpz_brain.Base.{
  ℕ, zero, suc, String, str_eq, Bool, true, false, Option, none, some, List, [], ◌∷◌, ◌++◌, map,
  is_nil, if◌then◌else◌, Result, ok, err, unwrap_or,
}
use shimpz_brain.Base.Results.{◌>>=◌}
use shimpz_brain.Json.Types.{Value, null}
use shimpz_brain.Json.{object, array, text}
use shimpz_brain.Conversation.{
  ToolCall, AssistantMessage, ToolMessage, Message, assistant, tool, to_value,
}
use shimpz_brain.Tools.Clarification.{clarification_value}
use shimpz_brain.Tools.Memory.{Change, change_value}
use shimpz_brain.Tools.Refusal.{latest}
use shimpz_brain.Tools.Routine
use shimpz_brain.Turn.Run.{TurnInput}
use shimpz_brain.Turn.State.{Externals, Host, Stop, Failed, Turn, new, next_id, take_steps, push}
use shimpz_brain.Turn.Guards.{Reviewed, run, refused, recorded, review}
use shimpz_brain.Turn.Model.{call_model, check_memory}
use shimpz_brain.Turn.ToolsNode.{answer_with, run_tools}
use shimpz_brain.Turn.Settle.{Settled, settle}

-- The calls of the latest model turn.
abbrev pub calls_of : Option AssistantMessage → List ToolCall
calls_of none = []
calls_of (some m) = m.calls

unfoldable pub latest_calls : Turn → List ToolCall
latest_calls turn = calls_of (latest turn.messages)

module _ (ext : Externals) where
  -- `answer_all`: every call of the latest turn gets the same content.
  unfoldable pub answer_calls : Turn → List ToolCall → String → Turn
  answer_calls turn [] content = turn
  answer_calls turn (call ∷ calls) content =
      answer_calls (answer_with ext turn call content false) calls content

  unfoldable pub answer_all : Turn → String → Turn
  answer_all turn content = answer_calls turn (latest_calls turn) content

abbrev first_id : List ToolCall → String
first_id [] = ""
first_id (call ∷ calls) = call.id

unfoldable pub answer_lone : Turn → String → String → Turn
answer_lone turn name content =
    let (id, counted) = next_id turn "t" in
    push counted (
      tool (record {
        id = id;
        call_id = first_id (latest_calls turn);
        name = name;
        content = content;
        error = false;
      }))

-- What a completed turn returns.
pub record Finished : Type 0 where
  pub settled : Settled
  pub memory : List Change
  pub messages : List Message

unfoldable pub turn_value : Settled → List Change → Value
turn_value s memory = object (
    ("status", text "completed")
    ∷ ("reply", text s.reply)
    ∷ ("clarification", elim s.clarification [ none ↦ null | some c ↦ clarification_value c ])
    ∷ ("memory", array (map change_value memory))
    ∷ ("routine", unwrap_or s.routine null)
    ∷ ("browser", null)
    ∷ ("actions", array [])
    ∷ [])

-- The run's result, as `finish` writes it.
unfoldable pub finished_value : Finished → Value
finished_value f =
    object (("turn", turn_value f.settled f.memory) ∷ ("messages", to_value f.messages) ∷ [])

module _ (ext : Externals) (host : Host) where
  open host use {Ctx}

  pub data Next : Type 0 where
    again : Turn → Ctx → Next
    finished : Finished → Next

  unfoldable pub finish : Turn → Ctx → Result Next Stop
  finish turn ctx = do
    done ← settle ext turn
    memory ← check_memory ext host done.1 ctx
    ok (finished (record { settled = done.0; memory = memory; messages = done.1.messages }))

  -- The calls of a response that passed the review.
  unfoldable pub run_calls : Turn → Ctx → Result Next Stop
  run_calls turn ctx =
      let calls = latest_calls turn in
      if is_nil calls
      then finish turn ctx
      else (take_steps turn 1 >>= λ counted. run_tools ext host counted ctx calls >>= λ ran.
          if ran.0 then finish ran.1 ran.2 else ok (again ran.1 ran.2))

  unfoldable pub after_review : Reviewed → Turn → Ctx → Result Next Stop
  after_review (refused correction) turn ctx = ok (again (answer_all ext turn correction) ctx)
  after_review (recorded content) turn ctx = finish (answer_lone turn Routine.tool_name content) ctx
  after_review run turn ctx = run_calls turn ctx

  -- One round of the loop.
  unfoldable pub round : Turn → Ctx → Result Next Stop
  round turn ctx = do
    called ← call_model ext host turn ctx
    reviewed ← review ext (push called.1 (assistant called.0))
    after_review reviewed.0 reviewed.1 called.2

  -- `none` when the fuel runs out.
  unfoldable pub drive : ℕ → Turn → Ctx → Option (Result Finished Stop)
  drive zero turn ctx = none
  drive (suc fuel) turn ctx = elim (round turn ctx) [
    | err stop ↦ some (err stop)
    | ok (finished done) ↦ some (ok done)
    | ok (again turn' ctx') ↦ drive fuel turn' ctx'
  ]

  -- The definition's run, on a decoded input.
  unfoldable pub run_turn : ℕ → String → TurnInput → Ctx → Option (Result Finished Stop)
  run_turn fuel run_id input ctx = drive fuel (new ext run_id input) ctx
