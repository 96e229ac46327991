-- ===== src/Examples/Runs.antt =====
-- The theorems on a whole run of a turn, and on a round of its loop, at concrete hosts.
use shimpz_brain.Base.{◌⊎◌, ◌++◌, true, false, some, List, [], ◌∷◌, ◌≡◌, refl, arith, All, map, ok}
use shimpz_brain.Json.Types.{null}
use shimpz_brain.Json.{object}
use shimpz_brain.Conversation.{
  ToolCall, AssistantMessage, ToolMessage, Message, assistant, tool, message_value,
}
use shimpz_brain.Tools.Action.{take_chars}
use shimpz_brain.Tools.Refusal.{latest}
use shimpz_brain.Turn.Run.{Journal, TeamRequest, action, wrap_text, answer_json}
use shimpz_brain.Turn.State
use shimpz_brain.Turn.State.{Externals, Interrupt, cancelled, Reply, Host, Turn}
use shimpz_brain.Turn.Guards.{run, Reviewed, apply, guards, review}
use shimpz_brain.Turn.ToolsNode.{requests_of, Answer, ask, answers_of, run_tools}
use shimpz_brain.Turn.Settle.{Settled, max_reply_chars, last_assistant, settle_recorded, settle}
use shimpz_brain.Turn.Drive.{Finished, again, round, run_turn}
use shimpz_brain.Python.{Python}
use shimpz_brain.Tools.Memory.{current_message}
use shimpz_brain.Tools.Memory.Quotes.{IsOwnWords}
use shimpz_brain.Turn.Drive.Memory.{run_turn-OwnWords}
use shimpz_brain.Turn.Drive.Answers.{round-Answered}
use shimpz_brain.Examples.{reading, team, reply_with, question, input, ext, mail_tool}
use shimpz_brain.Examples.Turns.{mail_call, host, settled}

abbrev reader : Python
reader = reading (message_value (assistant (reply_with "a1" "Sunny." [])))

abbrev ext_reading : Externals
ext_reading = record ext { py = reader }

-- A host whose model answers with one text and no call.
abbrev replying : Host
replying = record host {
  model = λ c request. (State.Reply.answered (answer_json reader "message" (some null)), c);
  model_pending = λ c request. omega arith;
}

abbrev finished_run : Finished
finished_run = record {
  settled = settled;
  memory = [];
  messages = question ∷ assistant (reply_with "brain-ab-a1" "Sunny." []) ∷ [];
}

run_turn-replying : run_turn ext_reading replying 1 "run" input 0 ≡ some (ok finished_run)
unfolding run_turn shimpz_brain.Turn.Drive.drive round shimpz_brain.Turn.Model.call_model
    State.take_steps State.new shimpz_brain.Turn.Model.model_reply
    shimpz_brain.Turn.Model.message_of shimpz_brain.Turn.Run.answer_from
    shimpz_brain.Turn.Run.journal_get answer_json shimpz_brain.Conversation.message_from
    shimpz_brain.Json.str_of message_value shimpz_brain.Conversation.assistant_from
    shimpz_brain.Json.has_exactly shimpz_brain.Json.array_of shimpz_brain.Json.bool_of
    shimpz_brain.Json.u64_of shimpz_brain.Json.uint shimpz_brain.Conversation.attempts_from review
    shimpz_brain.Turn.Guards.review_from guards State.next_id shimpz_brain.Turn.Guards.other_guards
    shimpz_brain.Turn.Guards.lift_failure apply shimpz_brain.Tools.Browser.review_alone
    shimpz_brain.Tools.Refusal.lone_call shimpz_brain.Tools.Refusal.lone_among
    shimpz_brain.Tools.Refusal.names_tool shimpz_brain.Tools.Clarification.review
    shimpz_brain.Turn.Drive.after_review shimpz_brain.Turn.Drive.run_calls
    shimpz_brain.Turn.Drive.latest_calls shimpz_brain.Turn.Drive.finish settle settle_recorded
    shimpz_brain.Tools.Clarification.recorded shimpz_brain.Tools.Routine.recorded
    shimpz_brain.Conversation.as_tool shimpz_brain.Turn.Settle.settle_reply last_assistant
    shimpz_brain.Budget.final_reply shimpz_brain.Turn.Model.check_memory
    shimpz_brain.Tools.Memory.confirmation shimpz_brain.Tools.Memory.proposed
    shimpz_brain.Tools.Memory.since_user shimpz_brain.Conversation.is_user
    shimpz_brain.Tools.Memory.proposed_in shimpz_brain.Tools.Memory.calls_to_tool
    shimpz_brain.Text.hex shimpz_brain.Conversation.raw_from shimpz_brain.Conversation.raw_value
run_turn-replying = refl

run_turn-OwnWords_example :
    (finished_run.memory ≡ [])
    ⊎ ((earlier : List Message) × (own : List Message) × (finished_run.messages ≡ earlier ++ own)
        × All (IsOwnWords reader team (current_message reader team own)) finished_run.memory)
run_turn-OwnWords_example =
    run_turn-OwnWords ext_reading replying 1 "run" input 0 finished_run run_turn-replying

-- The same host, whose model calls the Action.
abbrev mail_response : AssistantMessage
mail_response = reply_with "brain-ab-a1" "" (mail_call ∷ [])

abbrev ext_calling : Externals
ext_calling = record ext { py = reading (message_value (assistant mail_response)) }

abbrev started : Turn
started = record {
  input = input;
  messages = question ∷ [];
  prefix = "ab";
  counter = 0;
  steps = 0;
  first_segment = true;
  after_browser = false;
}

abbrev went_on : Turn
went_on = record {
  input = input;
  messages =
      question
      ∷ assistant mail_response
      ∷ tool (record {
        id = "brain-ab-t3";
        call_id = "c1";
        name = mail_tool;
        content = "{ }";
        error = false;
      })
      ∷ [];
  prefix = "ab";
  counter = 3;
  steps = 0;
  first_segment = false;
  after_browser = false;
}

round-started : round ext_calling replying started 1 ≡ ok (again went_on 0)
unfolding round shimpz_brain.Turn.Model.call_model State.take_steps
    shimpz_brain.Turn.Model.model_reply shimpz_brain.Turn.Model.message_of
    shimpz_brain.Turn.Run.answer_from shimpz_brain.Turn.Run.journal_get answer_json
    shimpz_brain.Conversation.message_from shimpz_brain.Json.str_of message_value
    shimpz_brain.Conversation.assistant_from shimpz_brain.Json.has_exactly
    shimpz_brain.Json.array_of shimpz_brain.Conversation.call_from
    shimpz_brain.Conversation.call_value shimpz_brain.Json.bool_of shimpz_brain.Json.u64_of
    shimpz_brain.Json.uint shimpz_brain.Conversation.attempts_from review
    shimpz_brain.Turn.Guards.review_from guards State.next_id shimpz_brain.Turn.Guards.other_guards
    shimpz_brain.Turn.Guards.lift_failure apply shimpz_brain.Tools.Browser.review_alone
    shimpz_brain.Tools.Refusal.lone_call shimpz_brain.Tools.Refusal.lone_among
    shimpz_brain.Tools.Refusal.names_tool shimpz_brain.Tools.Clarification.review
    shimpz_brain.Turn.Drive.after_review shimpz_brain.Turn.Drive.run_calls
    shimpz_brain.Turn.Drive.latest_calls run_tools answers_of shimpz_brain.Turn.ToolsNode.answer
    shimpz_brain.Turn.ToolsNode.action_of shimpz_brain.Tools.Action.tool_name shimpz_brain.Text.hex
    shimpz_brain.Turn.Guards.action_names shimpz_brain.Turn.ToolsNode.team_results requests_of
    shimpz_brain.Turn.ToolsNode.answer_action shimpz_brain.Turn.ToolsNode.deferred_reply
    shimpz_brain.Turn.ToolsNode.results_of shimpz_brain.Turn.Run.unwrap_text wrap_text
    shimpz_brain.Turn.Run.journal_str State.resumed shimpz_brain.Turn.ToolsNode.push_answers
    shimpz_brain.Turn.ToolsNode.is_browse State.interrupt_id_next shimpz_brain.Conversation.raw_from
    shimpz_brain.Turn.ToolsNode.result_content shimpz_brain.Conversation.raw_value
round-started = refl

round-Answered_example :
    (m : AssistantMessage) × (replies : List ToolMessage) × (went_on.messages
      ≡ started.messages ++ assistant m ∷ map tool replies)
    × (map ToolMessage.call_id replies ≡ map ToolCall.id m.calls)
    × (map ToolMessage.name replies ≡ map ToolCall.name m.calls)
round-Answered_example = round-Answered ext_calling replying started went_on 1 0 round-started
