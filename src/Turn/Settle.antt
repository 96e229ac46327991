-- ===== src/Turn/Settle.antt =====
-- The settled reply of a turn: `settle` of runtime/src/turn/step.rs.
pub mod Bounds
use Prim.Native.Nat.{min}
use shimpz_brain.Base.{
  ℕ, zero, suc, String, str_eq, false, Option, none, some, List, [], ◌∷◌, ◌++◌, length, drop,
  is_empty, if◌then◌else◌, unwrap_or, Result, ok, err,
}
use shimpz_brain.Json.Types.{Value}
use shimpz_brain.Json.{str_of}
use shimpz_brain.Conversation.{AssistantMessage, Message, assistant, as_assistant}
use shimpz_brain.Budget
use shimpz_brain.Tools.Action.{take_chars}
use shimpz_brain.Tools.Clarification
use shimpz_brain.Tools.Clarification.{Clarification}
use shimpz_brain.Tools.Routine
use shimpz_brain.Turn.Context.{provider_as_str}
use shimpz_brain.Turn.State.{Externals, Failed, Stop, failed, Turn, next_id, push}

abbrev pub max_reply_chars : ℕ
max_reply_chars = 60000

pub record Settled : Type 0 where
  pub reply : String
  pub clarification : Option Clarification
  pub routine : Option Value

module _ (ext : Externals) where
  -- `remember`.
  unfoldable pub remember : Turn → String → Turn
  remember turn content =
      let (id, counted) = next_id turn "a" in
      push counted (
        assistant (record {
          id = id;
          text = content;
          calls = [];
          invalid_calls = [];
          refusal = false;
          truncated = false;
          provider = provider_as_str turn.input.context.provider;
          raw = none;
          attempts = 1;
        }))

  unfoldable pub asked_of : Turn → Clarification → Clarification
  asked_of turn asked =
      if turn.input.context.routine_mode then record asked { default_index = none } else asked

  unfoldable pub settle_asked : Turn → Clarification → Settled × Turn
  settle_asked turn asked =
      let shown = asked_of turn asked in
      let reply = Clarification.render ext.team shown in
      (record { reply = reply; clarification = some shown; routine = none }, remember turn reply)

  unfoldable pub settle_routine : Turn → String → Value → Settled × Turn
  settle_routine turn reply recorded =
      let remembered =
        if is_empty reply then unwrap_or (str_of recorded "description") "" else reply in
      (
        record { reply = reply; clarification = none; routine = some recorded },
        remember turn remembered,
      )

  unfoldable pub settle_recorded : Turn → Option (Settled × Turn)
  settle_recorded turn = elim (Clarification.recorded ext.py turn.messages) [
    | some asked ↦ some (settle_asked turn asked)
    | none ↦ elim (Routine.recorded ext.py ext.routine_tool turn.messages) [
      | some (reply, recorded) ↦ some (settle_routine turn reply recorded)
      | none ↦ none
    ]
  ]

  -- The model turn `text` cut to what the person is shown.
  abbrev pub shorten : AssistantMessage → String → AssistantMessage
  shorten turn reply = record turn { text = reply; raw = none }

  -- The last model turn of some messages, and the messages with its text replaced where it differs.
  unfoldable pub last_assistant : List Message → Option AssistantMessage
  last_assistant [] = none
  last_assistant (m ∷ ms) = elim (last_assistant ms) [ some t ↦ some t | none ↦ as_assistant m ]

  unfoldable pub replace_last : List Message → String → List Message
  replace_last [] reply = []
  replace_last (assistant turn ∷ ms) reply = elim (last_assistant ms) [
    | some t ↦ assistant turn ∷ replace_last ms reply
    | none ↦ assistant (shorten turn reply) ∷ ms
  ]
  replace_last (m ∷ ms) reply = m ∷ replace_last ms reply

  unfoldable pub missing : Stop
  missing = failed (Failed.contract "graph completed without an Assistant reply")

  -- `messages[..start]`, kept as they are.
  abbrev before : ℕ → List Message → List Message
  before zero ms = []
  before (suc n) [] = []
  before (suc n) (m ∷ ms) = m ∷ before n ms

  unfoldable pub settle_reply : Turn → Result (Settled × Turn) Stop
  settle_reply turn =
      let start = min turn.input.turn_start (length turn.messages) in
      let own = drop start turn.messages in
      elim (last_assistant own) [
        | none ↦ err missing
        | some last_turn ↦
            let shown = Budget.final_reply ext.py (assistant last_turn) in
            let reply = take_chars max_reply_chars shown in
            let cut = record turn {
              messages = before start turn.messages ++ replace_last own reply;
            } in
            let settled : Settled = record {
              reply = reply;
              clarification = none;
              routine = none;
            } in
            if is_empty shown
            then err missing
            else ok (settled, if str_eq reply shown then turn else cut)
      ]

  unfoldable pub settle : Turn → Result (Settled × Turn) Stop
  settle turn = elim (settle_recorded turn) [ some done ↦ ok done | none ↦ settle_reply turn ]
