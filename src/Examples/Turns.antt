-- ===== src/Examples/Turns.antt =====
-- The theorems on a turn, at concrete states of one.
use shimpz_brain.Base.{
  ℕ, zero, suc, ◌<◌, ◌++◌, String, true, false, none, some, List, [], ◌∷◌, ◌≡◌, refl, arith, All,
  map, is_some, Result, ok, err,
}
use shimpz_brain.Json.Types.{Value, null}
use shimpz_brain.Json.{object}
use shimpz_brain.Conversation.{
  ToolCall, AssistantMessage, ToolMessage, Message, assistant, tool, message_value,
}
use shimpz_brain.Tools.Refusal.{latest}
use shimpz_brain.Turn.Run.{Journal, TeamRequest, action, wrap_text, answer_json}
use shimpz_brain.Turn.State
use shimpz_brain.Turn.State.{Externals, Interrupt, cancelled, Reply, Host, Turn}
use shimpz_brain.Turn.Guards.{run, Reviewed, apply, guards, review}
use shimpz_brain.Turn.Guards.Verdicts.{review_runs, review_after_browser}
use shimpz_brain.Turn.ToolsNode.{requests_of, Answer, ask, answers_of, run_tools}
use shimpz_brain.Turn.ToolsNode.Requests.{Allowed, answers_of-Allowed}
use shimpz_brain.Turn.ToolsNode.Pairing.{run_tools-Answered}
use shimpz_brain.Turn.Settle.{Settled}
use shimpz_brain.Turn.Drive.{run_turn}
use shimpz_brain.Turn.Drive.Termination.{run_turn_total}
use shimpz_brain.Examples.{
  py, reply_with, question, answered, call_named, input, ext, mail, mail_tool,
}

abbrev pub mail_call : ToolCall
mail_call = call_named mail_tool (object [])

-- A turn whose model called the Action.
abbrev calling : Turn
calling = record {
  input = input;
  messages = question ∷ assistant (reply_with "a1" "" (mail_call ∷ [])) ∷ [];
  prefix = "ab";
  counter = 1;
  steps = 2;
  first_segment = true;
  after_browser = false;
}

abbrev asking_mail : List Answer × Turn
asking_mail = (ask (action "ab" "mail" "list" (object [])) ∷ [], record calling { counter = 2 })

answers-mail : answers_of ext calling (mail_call ∷ []) (mail_tool ∷ []) ≡ ok asking_mail
unfolding answers_of shimpz_brain.Turn.ToolsNode.answer shimpz_brain.Turn.ToolsNode.action_of
    shimpz_brain.Tools.Action.tool_name shimpz_brain.Text.hex
    shimpz_brain.Turn.ToolsNode.answer_action State.interrupt_id_next
answers-mail = refl

answers_of-Allowed_example :
    All (Allowed ext (mail ∷ []) (mail_tool ∷ [])) (action "ab" "mail" "list" (object []) ∷ [])
unfolding requests_of
answers_of-Allowed_example =
    answers_of-Allowed ext (mail_call ∷ []) calling (mail_tool ∷ []) asking_mail answers-mail

-- A host that answers every model call with one text, and a batch as long as its count lasts.
abbrev pub spend : ℕ → List (String × Journal) → Result (List Journal) Interrupt × ℕ
spend zero requests = (err cancelled, zero)
spend (suc n) requests = (ok (map (λ r. wrap_text py "result" null) requests), n)

pub spend_less :
    (c : ℕ) (requests : List (String × Journal)) (results : List Journal)
    → (spend c requests).0 ≡ ok results
    → (spend c requests).1 < c
spend_less zero requests results h = absurd (ground arith)
spend_less (suc n) requests results h = omega arith

abbrev pub host : Host
host = record {
  Ctx = ℕ;
  model = λ c request. (State.Reply.answered (answer_json py "message" none), c);
  deferred = spend;
  pending = λ c. c;
  model_pending = λ c request. omega arith;
  deferred_pending = spend_less;
}

abbrev ran_mail : Turn
ran_mail = record calling {
  messages =
      calling.messages
      ++ tool (record {
        id = "brain-ab-t3";
        call_id = "c1";
        name = mail_tool;
        content = "{ }";
        error = false;
      })
        ∷ [];
  counter = 3;
  steps = 0;
  first_segment = false;
}

run_tools-mail : run_tools ext host calling 1 (mail_call ∷ []) ≡ ok (false, ran_mail, 0)
unfolding run_tools answers_of shimpz_brain.Turn.ToolsNode.answer
    shimpz_brain.Turn.ToolsNode.action_of shimpz_brain.Tools.Action.tool_name shimpz_brain.Text.hex
    shimpz_brain.Turn.Guards.action_names shimpz_brain.Turn.ToolsNode.team_results requests_of
    shimpz_brain.Turn.ToolsNode.answer_action shimpz_brain.Turn.ToolsNode.deferred_reply
    shimpz_brain.Turn.ToolsNode.results_of shimpz_brain.Turn.Run.unwrap_text
    shimpz_brain.Turn.Run.journal_get wrap_text shimpz_brain.Turn.Run.journal_str State.resumed
    shimpz_brain.Json.Types.get shimpz_brain.Json.decimal shimpz_brain.Json.has_exactly
    shimpz_brain.Json.members object shimpz_brain.Json.text shimpz_brain.Tools.Action.correction
    shimpz_brain.Tools.Action.plain shimpz_brain.Tools.Browser.objective
    shimpz_brain.Turn.Run.request_json shimpz_brain.Turn.Run.request_name
    shimpz_brain.Turn.Run.request_value State.interrupt_id_next State.next_id
    shimpz_brain.Turn.ToolsNode.answer_browser shimpz_brain.Turn.ToolsNode.answer_local
    shimpz_brain.Turn.ToolsNode.invalid_tool shimpz_brain.Turn.ToolsNode.is_browse
    shimpz_brain.Turn.ToolsNode.push_answers shimpz_brain.Turn.ToolsNode.result_content
run_tools-mail = refl

run_tools-Answered_example :
    (replies : List ToolMessage) × (ran_mail.messages ≡ calling.messages ++ map tool replies)
    × (map ToolMessage.call_id replies ≡ "c1" ∷ [])
    × (map ToolMessage.name replies ≡ mail_tool ∷ [])
run_tools-Answered_example =
    run_tools-Answered ext host calling 1 (mail_call ∷ []) (false, ran_mail, 0) run_tools-mail

-- A turn whose model answered in the pass after a browser result.
abbrev closing : Turn
closing = record {
  input = input;
  messages = question ∷ answered ∷ [];
  prefix = "ab";
  counter = 1;
  steps = 1;
  first_segment = false;
  after_browser = true;
}

review-closing : review ext closing ≡ ok (run, record closing { steps = 4 })
unfolding review shimpz_brain.Turn.Guards.review_from guards State.take_steps
    shimpz_brain.Turn.Guards.lift_failure apply shimpz_brain.Tools.Browser.review_after latest
    shimpz_brain.Turn.Guards.other_guards shimpz_brain.Tools.Browser.review_alone
    shimpz_brain.Tools.Refusal.lone_call shimpz_brain.Tools.Refusal.lone_among
    shimpz_brain.Tools.Refusal.names_tool shimpz_brain.Tools.Clarification.review
review-closing = refl

review_runs_example : All (λ g. apply ext closing g ≡ ok run) (guards closing)
review_runs_example =
    review_runs ext closing (run, record closing { steps = 4 }) review-closing refl

latest-closing : latest closing.messages ≡ some (reply_with "a1" "Sunny." [])
unfolding latest
latest-closing = refl

review_after_browser_example : AssistantMessage.calls (reply_with "a1" "Sunny." []) ≡ []
review_after_browser_example =
    review_after_browser ext closing (run, record closing { steps = 4 })
      (reply_with "a1" "Sunny." []) refl review-closing refl latest-closing

abbrev pub settled : Settled
settled = record { reply = "Sunny."; clarification = none; routine = none }

run_turn_total_example :
    (is_some (run_turn ext host 40 "run" input 1) ≡ true)
    × (run_turn ext host 40 "run" input 1 ≡ run_turn ext host 26 "run" input 1)
run_turn_total_example = run_turn_total ext host "run" input 1 40 (omega arith)
