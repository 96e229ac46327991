-- ===== src/Turn/Model.antt =====
-- The model calls of a turn: `call_model` and `check_memory` of runtime/src/turn/step.rs.
use shimpz_brain.Base.{
  ℕ, ◌+◌, String, str_eq, Bool, true, false, Option, none, some, List, [], ◌∷◌, map, leb, ltb,
  if◌then◌else◌, unwrap_or, Result, ok, err,
}
use shimpz_brain.Base.Results.{◌>>=◌}
use shimpz_brain.Json.Types.{Value, bool}
use shimpz_brain.Json.{object, array, text, uint}
use shimpz_brain.Conversation.{
  AssistantMessage, Message, assistant, message_id, message_from, to_value,
}
use shimpz_brain.Tools.Memory
use shimpz_brain.Tools.Memory.{Change}
use shimpz_brain.Turn.Context.{ProviderId, open_ai, anthropic, provider_as_str, carries_any}
use shimpz_brain.Turn.Run.{Journal, tool_value, wrap_text, answer_from}
use shimpz_brain.Turn.State.{
  Externals, Host, Reply, interrupted, answered, Failure, Failed, Stop, interrupt, failed, Turn,
  next_id, take_steps,
}

unfoldable pub failure_of : Failure → Failed
failure_of f =
    if str_eq f.failure_code "cancelled"
    then Failed.cancelled
    else if str_eq f.failure_code "contract"
    then Failed.contract f.message
    else Failed.provider

-- `attachments::dispatched`, over `u32`.
attempts_from : ℕ → List Message → ℕ
attempts_from sum [] = sum
attempts_from sum (assistant turn ∷ ms) =
    let tried = if ltb turn.attempts 1 then 1 else turn.attempts in
    attempts_from (if leb (sum + tried) 4294967295 then sum + tried else 4294967295) ms
attempts_from sum (_ ∷ ms) = attempts_from sum ms

unfoldable pub dispatched : List Message → String → ℕ
unfolding attempts_from
dispatched [] id = 0
dispatched (m ∷ ms) id =
    let later = dispatched ms id in if str_eq (message_id m) id then attempts_from 0 ms else later

is_anthropic : ProviderId → Bool
is_anthropic anthropic = true
is_anthropic open_ai = false

-- The request of one model call.
unfoldable pub chat_request : Turn → Value
unfolding is_anthropic
chat_request turn =
    let input = turn.input in
    let context = input.context in
    let tools = if turn.after_browser then [] else map tool_value input.tools in
    let id = unwrap_or context.turn_message_id "" in
    let reserved = if carries_any context.attachments then dispatched turn.messages id else 0 in
    object (
      ("kind", text "chat")
      ∷ ("provider", text (provider_as_str context.provider))
      ∷ ("model", text context.model)
      ∷ ("system", text input.system)
      ∷ ("messages", to_value turn.messages)
      ∷ ("tools", array tools)
      ∷ ("cache", bool (is_anthropic context.provider))
      ∷ ("charge", uint context.attachments.charge)
      ∷ ("reserved", uint reserved)
      ∷ ("turn_message_id", text id)
      ∷ [])

module _ (ext : Externals) where
  module _ (host : Host) where
    open host use {Ctx, model}

    -- A decoded answer of a model call: a model turn that is not cut short.
    unfoldable pub message_of : Turn → Journal → Result (AssistantMessage × Turn) Stop
    message_of turn output = elim (answer_from ext.py output "message") [
      | none ↦ err (failed Failed.provider)
      | some none ↦ err (failed Failed.provider)
      | some (some value) ↦ elim (message_from value) [
        | some (assistant m) ↦
            let (id, counted) = next_id turn "a" in
            if m.truncated then err (failed Failed.provider) else ok (record m { id = id }, counted)
        | _ ↦ err (failed Failed.provider)
      ]
    ]

    unfoldable pub model_reply : Turn → Reply Journal → Result (AssistantMessage × Turn) Stop
    model_reply turn (interrupted i) = err (interrupt i)
    model_reply turn (Reply.failed f) = err (failed (failure_of f))
    model_reply turn (answered output) = message_of turn output

    -- `call_model`: one journaled model call; a truncated answer fails the turn.
    unfoldable pub call_model : Turn → Ctx → Result (AssistantMessage × Turn × Ctx) Stop
    call_model turn ctx = do
      counted ← take_steps turn 1
      let called = model ctx (wrap_text ext.py "call" (chat_request counted))
      done ← model_reply counted called.0
      ok (done.0, done.1, called.1)

    unfoldable pub verdict_of : Journal → Option Value
    verdict_of output = unwrap_or (answer_from ext.py output "verdict") none

    unfoldable pub accept_reply : Reply Journal → List Change → Result (List Change) Stop
    accept_reply (interrupted i) changes = err (interrupt i)
    accept_reply (Reply.failed f) changes = err (failed (failure_of f))
    accept_reply (answered output) changes = ok (Memory.accepted changes (verdict_of output))

    unfoldable pub check_request : Turn → String → Value
    check_request turn prompt = object (
        ("kind", text "check")
        ∷ ("provider", text (provider_as_str turn.input.context.provider))
        ∷ ("model", text turn.input.context.model)
        ∷ ("prompt", text prompt)
        ∷ [])

    -- `check_memory`: the independent check of the turn's proposals.
    unfoldable pub check_memory : Turn → Ctx → Result (List Change) Stop
    check_memory turn ctx =
        elim (Memory.confirmation ext.py ext.team turn.messages turn.input.context.memories) [
          | none ↦ ok []
          | some (prompt, changes) ↦
              accept_reply (model ctx (wrap_text ext.py "call" (check_request turn prompt))).0
                changes
        ]
