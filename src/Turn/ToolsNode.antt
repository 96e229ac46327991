-- ===== src/Turn/ToolsNode.antt =====
-- The tools node of a turn: `answer`, `push_answers` and `run_tools` of runtime/src/turn/step.rs.
pub mod Pairing
pub mod Requests
use Prim.Native.String.{◌++◌ as str_append}
use shimpz_brain.Base.{
  String, str_eq, Bool, true, false, not, ◌&&◌, Option, none, some, List, [], ◌∷◌, any, map, is_nil,
  if◌then◌else◌, Result, ok, err,
}
use shimpz_brain.Base.Results.{◌>>=◌}
use shimpz_brain.Json.Types.{Value, null, str}
use shimpz_brain.Conversation.{ToolCall, tool}
use shimpz_brain.Tools.Action
use shimpz_brain.Tools.Action.{take_chars}
use shimpz_brain.Tools.Browser
use shimpz_brain.Tools.Clarification
use shimpz_brain.Tools.Clarification.{Clarification}
use shimpz_brain.Tools.Memory
use shimpz_brain.Tools.Memory.{Change}
use shimpz_brain.Turn.Context.{ActionDefinition, AssistantDefinition}
use shimpz_brain.Turn.Run.{
  Journal, ToolSpec, TurnInput, TeamRequest, action, browse, request_name, request_json,
  unwrap_text,
}
use shimpz_brain.Turn.State.{
  Externals, Host, Failed, Interrupt, Stop, interrupt, failed, Turn, next_id, interrupt_id_next,
  push, resumed,
}
use shimpz_brain.Turn.Guards.{action_names}

-- The first of some Actions whose tool has that name and is offered.
abbrev find_action :
    (String → String) → List String → String → List ActionDefinition → Option ActionDefinition
find_action tool_of offered name [] = none
find_action tool_of offered name (a ∷ as_rest) =
    let later = find_action tool_of offered name as_rest in
    if str_eq (tool_of a.id) name && any (str_eq (tool_of a.id)) offered then some a else later

abbrev with_assistant : String → ActionDefinition → String × ActionDefinition
with_assistant id a = (id, a)

-- How one call of the tools node is answered.
pub data Answer : Type 0 where
  now : String → Bool → Answer
  ask : TeamRequest → Answer

abbrev join_names : List String → String
join_names [] = ""
join_names (w ∷ []) = w
join_names (w ∷ v ∷ ws) = str_append w (str_append ", " (join_names (v ∷ ws)))

unfoldable pub invalid_tool : String → TurnInput → String
invalid_tool name input = str_append "Error: " (
    str_append name (
      str_append " is not a valid tool, try one of ["
        (str_append (join_names (map ToolSpec.name input.tools)) "].")))

unfoldable pub requests_of : List Answer → List TeamRequest
requests_of [] = []
requests_of (ask r ∷ as_rest) = r ∷ requests_of as_rest
requests_of (now content error ∷ as_rest) = requests_of as_rest

unfoldable pub is_browse : TeamRequest → Bool
is_browse (browse id objective) = true
is_browse (action id assistant_id name input) = false

module _ (ext : Externals) where
  unfoldable pub action_of :
      List AssistantDefinition → List String → String → Option (String × ActionDefinition)
  action_of [] offered name = none
  action_of (owner ∷ rest) offered name =
      let later = action_of rest offered name in
      elim (find_action (Action.tool_name ext.sha256 owner.id) offered name owner.actions) [
        | some a ↦ some (with_assistant owner.id a)
        | none ↦ later
      ]

  unfoldable pub answer_action : Turn → ToolCall → String → ActionDefinition → Answer × Turn
  answer_action turn call assistant_id a =
      let (id, counted) = interrupt_id_next ext turn in
      if not (ext.valid_payload a.input_schema call.arguments)
      then (now (Action.correction call.name a) false, turn)
      else (ask (action id assistant_id a.id call.arguments), counted)

  unfoldable pub answer_browser : Turn → ToolCall → Answer × Turn
  answer_browser turn call =
      let (id, counted) = interrupt_id_next ext turn in
      elim (Browser.objective ext.team call.arguments) [
        | ok objective ↦ (ask (browse id objective), counted)
        | err correction ↦ (now correction false, turn)
      ]

  unfoldable pub answer_local : Turn → ToolCall → Result (Answer × Turn) Stop
  answer_local turn call =
      if str_eq call.name Clarification.tool_name
      then ok (now Clarification.recorded_text false, turn)
      else if str_eq call.name Memory.tool_name
      then ok (now Memory.proposed_text false, turn)
      else if str_eq call.name Browser.tool_name
      then ok (answer_browser turn call)
      else err (failed (Failed.contract "the Routine tool runs only through its guard"))

  abbrev known : Turn → String → Bool
  known turn name =
      any (λ t. str_eq (ToolSpec.name t) name) turn.input.tools && not turn.after_browser

  unfoldable pub answer : Turn → ToolCall → List String → Result (Answer × Turn) Stop
  answer turn call offered =
      if not (known turn call.name)
      then ok (now (invalid_tool call.name turn.input) true, turn)
      else elim (action_of turn.input.context.assistants offered call.name) [
        | some (assistant_id, a) ↦ ok (answer_action turn call assistant_id a)
        | none ↦ answer_local turn call
      ]

  -- The answers of all calls, in order.
  unfoldable pub answers_of : Turn → List ToolCall → List String → Result (List Answer × Turn) Stop
  answers_of turn [] offered = ok ([], turn)
  answers_of turn (call ∷ calls) offered = do
    step ← answer turn call offered
    rest ← answers_of step.1 calls offered
    ok (step.0 ∷ rest.0, rest.1)

  -- `result_content`.
  unfoldable pub result_content : TeamRequest → Value → String
  result_content (action id assistant_id name input) (str content) = content
  result_content (action id assistant_id name input) other = ext.py.spaced other
  result_content (browse id objective) other = ext.py.compact other

  -- One call's tool message, under the turn's next id.
  abbrev pub answer_with : Turn → ToolCall → String → Bool → Turn
  answer_with turn call content error =
      let (id, counted) = next_id turn "t" in
      push counted (
        tool (record {
          id = id;
          call_id = call.id;
          name = call.name;
          content = content;
          error = error;
        }))

  -- `push_answers`: one tool message for each call and its answer, Team's results in order.
  unfoldable pub push_answers : Turn → List ToolCall → List Answer → List Value → Turn
  push_answers turn [] as_list results = turn
  push_answers turn (call ∷ calls) [] results = turn
  push_answers turn (call ∷ calls) (now content error ∷ as_list) results =
      push_answers (answer_with turn call content error) calls as_list results
  push_answers turn (call ∷ calls) (ask request ∷ as_list) [] =
      push_answers (answer_with turn call (result_content request null) false) calls as_list []
  push_answers turn (call ∷ calls) (ask request ∷ as_list) (result ∷ results) =
      push_answers (answer_with turn call (result_content request result) false) calls as_list
        results

  module _ (host : Host) where
    open host use {Ctx, deferred}

    unfoldable pub results_of : List Journal → Result (List Value) Stop
    results_of [] = ok []
    results_of (j ∷ js) = do
      rest ← results_of js
      elim (unwrap_text ext.py j "result") [
        | none ↦ err (failed Failed.provider)
        | some v ↦ ok (v ∷ rest)
      ]

    unfoldable pub deferred_reply : Result (List Journal) Interrupt → Result (List Value) Stop
    deferred_reply (err i) = err (interrupt i)
    deferred_reply (ok js) = results_of js

    -- `team_results`: no request, no deferred step.
    unfoldable pub team_results : Ctx → List TeamRequest → Result (List Value × Ctx) Stop
    team_results ctx requests =
        let asked = deferred ctx (map (λ r. (request_name r, request_json ext.py r)) requests) in
        if is_nil requests
        then ok ([], ctx)
        else (deferred_reply asked.0 >>= λ results. ok (results, asked.1))

    -- `run_tools`: every call of the latest turn answered, Team asked in one batch; `true` when a
    -- clarification ends the turn.
    unfoldable pub run_tools : Turn → Ctx → List ToolCall → Result (Bool × Turn × Ctx) Stop
    run_tools turn ctx calls = do
      answers ← answers_of turn calls (action_names turn.input)
      let requests = requests_of answers.0
      results ← team_results ctx requests
      let pushed = push_answers answers.1 calls answers.0 results.0
      let after = if is_nil requests then pushed else resumed pushed (any is_browse requests)
      ok (any (λ c. str_eq (ToolCall.name c) Clarification.tool_name) calls, after, results.1)
