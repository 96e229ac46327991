-- ===== src/Turn/Drive/Answers.antt =====
-- A round of the loop leaves no call of the model unanswered (runtime/src/turn/definition.rs).
use shimpz_brain.Base.{
  String, Bool, true, false, List, [], ◌∷◌, ◌++◌, map, append_assoc, append-nil, last-concat, ◌≡◌,
  refl, sym, ap, ◌∙◌, arith, is_nil, if◌then◌else◌, ok, Bool-cases, inl, inr,
}
use shimpz_brain.Base.Results.{◌>>=◌, >>=-eq-ok}
use shimpz_brain.Conversation.{
  ToolCall, AssistantMessage, ToolMessage, Message, assistant, tool, as_assistant,
}
use shimpz_brain.Tools.Refusal.{latest}
use shimpz_brain.Turn.Run.{Journal}
use shimpz_brain.Turn.State.{
  Externals, Host, Turn, next_id, take_steps, push, Reply, answered, interrupted,
}
use shimpz_brain.Turn.State
use shimpz_brain.Turn.Guards.{
  Guard, lift_failure, Reviewed, run, refused, recorded, apply, guards, review, review_from,
}
use shimpz_brain.Turn.Model.{call_model, model_reply, message_of}
use shimpz_brain.Turn.ToolsNode.{answer_with, run_tools}
use shimpz_brain.Turn.ToolsNode.Pairing.{Answered, answer_with-Answered, run_tools-Answered}
use shimpz_brain.Turn.Drive.{
  answer_calls, answer_all, latest_calls, again, finish, run_calls, after_review, round,
}
use shimpz_brain.Turn.Drive.Termination.{finish-finished}

messages-take_steps : (turn t : Turn) → take_steps turn 1 ≡ ok t → t.messages ≡ turn.messages
unfolding take_steps
messages-take_steps turn t h = ground arith

latest_calls-push :
    (turn : Turn) (messages : List Message) (m : AssistantMessage)
    → turn.messages ≡ messages ++ assistant m ∷ []
    → latest_calls turn ≡ m.calls
unfolding latest_calls latest as_assistant
latest_calls-push turn messages m e = rw (e, last-concat messages (assistant m)) refl

module _ (ext : Externals) where
  verdict_messages :
      (turn counted : Turn) (gs : List Guard) (out : Reviewed × Turn) (verdict : Reviewed)
      → counted.messages ≡ turn.messages
      → (review_from ext counted gs ≡ ok out → out.1.messages ≡ counted.messages)
      → elim verdict [ run ↦ review_from ext counted gs | other ↦ ok (other, counted) ] ≡ ok out
      → out.1.messages ≡ turn.messages
  verdict_messages turn counted gs out run same ih later = ih later ∙ same
  verdict_messages turn counted gs out (refused c) same ih later = ground arith
  verdict_messages turn counted gs out (recorded c) same ih later = ground arith

  messages-review_from :
      (gs : List Guard) (turn : Turn) (out : Reviewed × Turn)
      → review_from ext turn gs ≡ ok out
      → out.1.messages ≡ turn.messages
  unfolding review_from
  messages-review_from [] turn out h = ground arith
  messages-review_from (g ∷ gs) turn out h =
      let (counted, taken, rest) = >>=-eq-ok (take_steps turn 1) _ h in
      let (verdict, _, later) = >>=-eq-ok (lift_failure ext (apply ext counted g)) _ rest in
      verdict_messages turn counted gs out verdict (messages-take_steps turn counted taken)
        (messages-review_from gs counted out) later

  answer_calls-Answered :
      (calls : List ToolCall) (turn : Turn) (content : String)
      → Answered turn.messages (answer_calls ext turn calls content).messages calls
  unfolding answer_calls
  answer_calls-Answered [] turn content = ([], sym (append-nil turn.messages), refl, refl)
  answer_calls-Answered (call ∷ calls) turn content =
      answer_with-Answered ext turn _ call calls content false
        (answer_calls-Answered calls (answer_with ext turn call content false) content)

  module _ (host : Host) where
    open host use {Ctx}

    messages-model_reply :
        (turn : Turn) (reply : Reply Journal) (out : AssistantMessage × Turn)
        → model_reply ext host turn reply ≡ ok out
        → out.1.messages ≡ turn.messages
    unfolding model_reply message_of next_id
    messages-model_reply turn (interrupted i) out h = ground arith
    messages-model_reply turn (State.Reply.failed f) out h = ground arith
    messages-model_reply turn (answered output) out h = ground arith

    messages-call_model :
        (turn : Turn) (ctx : Ctx) (out : AssistantMessage × Turn × Ctx)
        → call_model ext host turn ctx ≡ ok out
        → out.1.messages ≡ turn.messages
    unfolding call_model
    messages-call_model turn ctx out h =
        let (counted, taken, later) = >>=-eq-ok (take_steps turn 1) _ h in
        let (done, replied, same) = >>=-eq-ok (model_reply ext host counted _) _ later in
        ground (
          arith,
          messages-model_reply counted _ done replied,
          messages-take_steps turn counted taken,
        )

    run_calls-Answered :
        (turn turn' : Turn) (ctx ctx' : Ctx)
        → run_calls ext host turn ctx ≡ ok (again turn' ctx')
        → Answered turn.messages turn'.messages (latest_calls turn)
    unfolding run_calls
    run_calls-Answered turn turn' ctx ctx' h = by_calls (is_nil (latest_calls turn)) h
      where
        by_calls :
            (stops : Bool)
            → (if stops
                then finish ext host turn ctx
                else (take_steps turn 1 >>= λ counted.
                    run_tools ext host counted ctx (latest_calls turn) >>= λ ran.
                    if ran.0 then finish ext host ran.1 ran.2 else ok (again ran.1 ran.2)))
              ≡ ok (again turn' ctx')
            → Answered turn.messages turn'.messages (latest_calls turn)
        by_calls true stopped = absurd (finish-finished ext host turn turn' ctx ctx' stopped)
        by_calls false went =
            let (counted, taken, later) = >>=-eq-ok (take_steps turn 1) _ went in
            let (ran, running, rest) =
              >>=-eq-ok (run_tools ext host counted ctx (latest_calls turn)) _ later in
            let (replies, grew, ids, names) =
              run_tools-Answered ext host counted ctx (latest_calls turn) ran running in
            let same = messages-take_steps turn counted taken in
            elim (Bool-cases ran.0) [
              | inl e ↦ absurd (finish-finished ext host ran.1 turn' ran.2 ctx' (ground arith))
              | inr e ↦ (replies, ground arith, ids, names)
            ]

    after_review-Answered :
        (reviewed : Reviewed) (turn turn' : Turn) (ctx ctx' : Ctx)
        → after_review ext host reviewed turn ctx ≡ ok (again turn' ctx')
        → Answered turn.messages turn'.messages (latest_calls turn)
    unfolding after_review answer_all
    after_review-Answered run turn turn' ctx ctx' h = run_calls-Answered turn turn' ctx ctx' h
    after_review-Answered (refused correction) turn turn' ctx ctx' h =
        let (replies, grew, ids, names) =
          answer_calls-Answered (latest_calls turn) turn correction in
        (replies, ground (arith, grew), ids, names)
    after_review-Answered (recorded content) turn turn' ctx ctx' h =
        absurd (finish-finished ext host _ turn' ctx ctx' h)

    -- A round after which the loop goes on has appended exactly one model message and then one tool
    -- message for each of its calls, in their order and under their ids and names, whether the calls
    -- ran or the review refused them: the conversation sent to the next model call answers every
    -- call of this one.
    pub round-Answered :
        (turn turn' : Turn) (ctx ctx' : Ctx)
        → round ext host turn ctx ≡ ok (again turn' ctx')
        → (m : AssistantMessage) × (replies : List ToolMessage) × (turn'.messages
            ≡ turn.messages ++ assistant m ∷ map tool replies)
          × (map ToolMessage.call_id replies ≡ map ToolCall.id m.calls)
          × (map ToolMessage.name replies ≡ map ToolCall.name m.calls)
    unfolding round review
    round-Answered turn turn' ctx ctx' h =
        let (called, calling, later) = >>=-eq-ok (call_model ext host turn ctx) _ h in
        let asked = push called.1 (assistant called.0) in
        let (reviewed, reviewing, rest) =
          >>=-eq-ok (review_from ext asked (guards asked)) _ later in
        let same : reviewed.1.messages ≡ turn.messages ++ assistant called.0 ∷ [] =
          messages-review_from (guards asked) asked reviewed reviewing
          ∙ ap (λ ms. ms ++ assistant called.0 ∷ [])
              (messages-call_model turn ctx called calling) in
        let (replies, grew, ids, names) =
          after_review-Answered reviewed.0 reviewed.1 turn' called.2 ctx' rest in
        let calls = latest_calls-push reviewed.1 turn.messages called.0 same in
        (
          called.0,
          replies,
          grew
              ∙ (ap (λ ms. ms ++ map tool replies) same
                  ∙ append_assoc turn.messages (assistant called.0 ∷ []) (map tool replies)),
          ids ∙ ap (map ToolCall.id) calls,
          names ∙ ap (map ToolCall.name) calls,
        )
