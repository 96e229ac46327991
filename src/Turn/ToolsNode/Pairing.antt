-- ===== src/Turn/ToolsNode/Pairing.antt =====
-- The tools node answers the calls of a model turn one for one (runtime/src/turn/step.rs).
use shimpz_brain.Base.{
  String, List, [], ◌∷◌, ◌++◌, map, append-nil, append_assoc, length, ◌≡◌, refl, ◌∙◌, ap, sym,
  arith, is_nil, Bool, false, ok, Bool-cases, inl, inr,
}
use shimpz_brain.Base.Results.{>>=-eq-ok}
use shimpz_brain.Json.Types.{Value, null}
use shimpz_brain.Conversation.{ToolCall, ToolMessage, Message, tool}
use shimpz_brain.Turn.State.{Externals, Host, Turn, next_id, interrupt_id_next, resumed}
use shimpz_brain.Turn.Guards.{action_names}
use shimpz_brain.Turn.ToolsNode.{
  answer_with, result_content, Answer, now, ask, answer, answer_local, answer_action,
  answer_browser, answers_of, push_answers, requests_of, team_results, run_tools,
}

-- The messages of a turn grew by one tool message for each call, in order, under its id and name.
abbrev pub Answered : List Message → List Message → List ToolCall → Type 0
Answered messages later calls =
    (replies : List ToolMessage) × (later ≡ messages ++ map tool replies)
    × (map ToolMessage.call_id replies ≡ map ToolCall.id calls)
    × (map ToolMessage.name replies ≡ map ToolCall.name calls)

module _ (ext : Externals) where
  pub answer_with-Answered :
      (turn : Turn) (later : List Message) (call : ToolCall) (calls : List ToolCall)
      (content : String) (error : Bool)
      → Answered (answer_with ext turn call content error).messages later calls
      → Answered turn.messages later (call ∷ calls)
  unfolding next_id
  answer_with-Answered turn later call calls content error (replies, grew, ids, names) =
      let reply : ToolMessage = record {
        id = (next_id turn "t").0;
        call_id = call.id;
        name = call.name;
        content = content;
        error = error;
      } in
      (
        reply ∷ replies,
        grew ∙ append_assoc turn.messages (tool reply ∷ []) (map tool replies),
        ap (λ later_ids. call.id ∷ later_ids) ids,
        ap (λ later_names. call.name ∷ later_names) names,
      )

  pub push_answers-Answered :
      (calls : List ToolCall) (turn : Turn) (answers : List Answer) (results : List Value)
      → length answers ≡ length calls
      → Answered turn.messages (push_answers ext turn calls answers results).messages calls
  unfolding push_answers
  push_answers-Answered [] turn answers results same =
      ([], sym (append-nil turn.messages), refl, refl)
  push_answers-Answered (call ∷ calls) turn [] results same = absurd (ground arith)
  push_answers-Answered (call ∷ calls) turn (now content error ∷ answers) results same =
      answer_with-Answered turn _ call calls _ _ (
        push_answers-Answered calls (answer_with ext turn call content error) answers results
          (ground arith))
  push_answers-Answered (call ∷ calls) turn (ask request ∷ answers) [] same =
      answer_with-Answered turn _ call calls _ _ (
        push_answers-Answered calls
          (answer_with ext turn call (result_content ext request null) false) answers []
          (ground arith))
  push_answers-Answered (call ∷ calls) turn (ask request ∷ answers) (result ∷ results) same =
      answer_with-Answered turn _ call calls _ _ (
        push_answers-Answered calls
          (answer_with ext turn call (result_content ext request result) false) answers results
          (ground arith))

  messages-answer :
      (turn : Turn) (call : ToolCall) (offered : List String) (out : Answer × Turn)
      → answer ext turn call offered ≡ ok out
      → out.1.messages ≡ turn.messages
  unfolding answer answer_local answer_action answer_browser interrupt_id_next
  messages-answer turn call offered out h = ground arith

  answers_of_kept :
      (calls : List ToolCall) (turn : Turn) (offered : List String) (out : List Answer × Turn)
      → answers_of ext turn calls offered ≡ ok out
      → (length out.0 ≡ length calls) × (out.1.messages ≡ turn.messages)
  unfolding answers_of
  answers_of_kept [] turn offered out h = ground arith
  answers_of_kept (call ∷ calls) turn offered out h =
      let (step, first, later) = >>=-eq-ok (answer ext turn call offered) _ h in
      let (rest, others, done) = >>=-eq-ok (answers_of ext step.1 calls offered) _ later in
      let (long, kept) = answers_of_kept calls step.1 offered rest others in
      ground (arith, messages-answer turn call offered step first)

  module _ (host : Host) where
    open host use {Ctx}

    -- When the tools node succeeds, the turn's messages are the old ones followed by exactly one
    -- tool message for each call, in the order of the calls, under the call's id and name.
    pub run_tools-Answered :
        (turn : Turn) (ctx : Ctx) (calls : List ToolCall) (out : Bool × Turn × Ctx)
        → run_tools ext host turn ctx calls ≡ ok out
        → (replies : List ToolMessage) × (out.1.messages ≡ turn.messages ++ map tool replies)
          × (map ToolMessage.call_id replies ≡ map ToolCall.id calls)
          × (map ToolMessage.name replies ≡ map ToolCall.name calls)
    unfolding run_tools resumed
    run_tools-Answered turn ctx calls out h =
        let (answers, answering, later) =
          >>=-eq-ok (answers_of ext turn calls (action_names turn.input)) _ h in
        let (results, asked, same) =
          >>=-eq-ok (team_results ext host ctx (requests_of answers.0)) _ later in
        let (long, kept) = answers_of_kept calls turn (action_names turn.input) answers answering in
        let (replies, grew, ids, names) =
          push_answers-Answered calls answers.1 answers.0 results.0 long in
        elim (Bool-cases (is_nil (requests_of answers.0))) [
          | inl e ↦ (replies, ground arith, ids, names)
          | inr e ↦ (replies, ground arith, ids, names)
        ]
