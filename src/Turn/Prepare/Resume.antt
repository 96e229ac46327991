-- ===== src/Turn/Prepare/Resume.antt =====
-- A resume against its pinned turn (runtime/src/turn/service/prepare.rs: `resumed`, `resolutions`,
-- `pending_value`) and the results it still has to record (runtime/src/turn/service.rs: `asked`,
-- `last_round`, `applied`, `fresh_results`). The events, requests and outcomes are Holdpoint's.
use shimpz_brain.Base.{
  ℕ, ◌+◌, ◌%◌, String, str_eq, Bool, true, false, not, ◌&&◌, Option, none, some, List, [], ◌∷◌,
  ◌++◌, map, if◌then◌else◌, find, filter, filter_map, is_nil, any, all, Result, ok, err, is_some,
  unwrap_or,
}
use shimpz_brain.Base.Results.{◌>>=◌}
use shimpz_brain.Base.Sort.{sorted}
use shimpz_brain.Json.Types.{Value, null}
use shimpz_brain.Json.{object, array, text, contains}
use shimpz_brain.Python.{Python}
use shimpz_brain.Budget.{message_tokens, fixed_tokens, estimated_tokens, ensure_window, sum_u64}
use shimpz_brain.Errors.{BrainError, contract, state}
use shimpz_brain.Attachments.Types.{commitment}
use shimpz_brain.Turn.Context.{provider_as_str}
use shimpz_brain.Turn.Run.{
  Journal, TeamRequest, action, browse, interrupt_id, request_from_json, tool_value, TurnInput,
}
use shimpz_brain.Turn.Prepare.Inputs.{Workshop, ResumeRequest, TurnSession}
use shimpz_brain.Turn.Prepare.Window.{fitted}

-- `holdpoint::Event` and `PendingRequest`, as the service reads them.
pub data StepKind : Type 0 where
  deferred other_kind : StepKind

pub data Event : Type 0 where
  run_started : Journal → Event
  step_scheduled : StepKind → String → Option Journal → Event
  other_event : Event

pub record PendingRequest : Type 0 where
  pub step : ℕ
  pub name : String
  pub request : Journal

abbrev pub invalid_results : BrainError
invalid_results = contract "invalid Action resume results"

module _ (py : Python) where
  -- The Team request that a scheduled step asks, if it is one.
  unfoldable pub scheduled : Event → Option TeamRequest
  scheduled (step_scheduled deferred name (some input)) = request_from_json py name input
  scheduled _ = none

  unfoldable pub is_step : Event → Bool
  is_step (step_scheduled kind name input) = true
  is_step _ = false

  unfoldable pub asked : List Event → List String
  asked history = map interrupt_id (filter_map scheduled history)

  -- The loop of `last_round`, over the round collected so far and whether it is still running.
  unfoldable pub round_from : List String → Bool → List Event → List String
  round_from round running [] = round
  round_from round running (event ∷ history) = elim (scheduled event) [
    | some request ↦
        round_from ((if running then round else []) ++ interrupt_id request ∷ []) true history
    | none ↦ round_from round (running && not (is_step event)) history
  ]

  unfoldable pub last_round : List Event → List String
  last_round history = sorted (round_from [] false history)

  -- `pending` of the service: a recorded request that does not decode is a state error.
  unfoldable pub team_requests : List PendingRequest → Result (List TeamRequest) BrainError
  team_requests [] = ok []
  team_requests (r ∷ rs) = elim (request_from_json py r.name r.request) [
    | none ↦ err state
    | some request ↦ team_requests rs >>= λ requests. ok (request ∷ requests)
  ]

  abbrev pub answers : String → PendingRequest → Bool
  answers id r = elim (request_from_json py r.name r.request) [
    | none ↦ false
    | some known ↦ str_eq (interrupt_id known) id
  ]

  -- `resolutions`, over what the worker has pending.
  unfoldable pub resolutions :
      List PendingRequest → List (String × Value) → Result (List (ℕ × Value)) BrainError
  resolutions pending [] = ok []
  resolutions pending ((id, result) ∷ results) = elim (find (answers id) pending) [
    | none ↦ err invalid_results
    | some r ↦ resolutions pending results >>= λ rest. ok ((r.step, result) ∷ rest)
  ]

unfoldable pub waiting : List TeamRequest → String → Bool
waiting pending id = any (λ r. str_eq (interrupt_id r) id) pending

-- Whether an earlier resume recorded every answered interrupt.
unfoldable pub applied : List String → List TeamRequest → List String → Bool
applied answered pending asked =
    not (is_nil answered)
    && all (contains asked) answered
    && not (any (λ r. contains answered (interrupt_id r)) pending)

unfoldable pub fresh_results :
    List (String × Value)
    → List TeamRequest
    → List String
    → Result (List (String × Value)) BrainError
fresh_results results pending asked =
    if any (λ r. not (waiting pending r.0) && not (contains asked r.0)) results
    then err invalid_results
    else ok (filter (λ r. waiting pending r.0) results)

browser_of : TeamRequest → Option Value
browser_of (browse id objective) =
    some (object (("interrupt_id", text id) ∷ ("objective", text objective) ∷ []))
browser_of _ = none

action_of : TeamRequest → Option Value
action_of (action id assistant_id name input) = some (
    object (
      ("interrupt_id", text id)
      ∷ ("assistant_id", text assistant_id)
      ∷ ("action", text name)
      ∷ ("input", input)
      ∷ []))
action_of _ = none

first : List Value → Option Value
first [] = none
first (v ∷ vs) = some v

-- The response of a turn that waits on Team.
unfoldable pub pending_value : List TeamRequest → Value
unfolding browser_of action_of first
pending_value requests =
    let browser = first (filter_map browser_of requests) in
    let actions = filter_map action_of requests in
    let wants_browser = is_some browser in
    object (
      ("status", text (if wants_browser then "browser-required" else "action-required"))
      ∷ ("reply", text "")
      ∷ ("clarification", null)
      ∷ ("memory", array [])
      ∷ ("routine", null)
      ∷ ("browser", unwrap_or browser null)
      ∷ ("actions", array (if wants_browser then [] else actions))
      ∷ [])

module _ (shop : Workshop) where
  same_provider : ResumeRequest → TurnInput → Bool
  same_provider request input =
      str_eq (provider_as_str request.turn.provider.provider)
        (provider_as_str input.context.provider)

  same_attachments : ResumeRequest → TurnInput → Bool
  same_attachments request input =
      str_eq (commitment shop.rules.canonical shop.sha256 request.turn.attachments)
        input.context.attachments.commitment

  abbrev pub wrap_u64 : ℕ → ℕ
  wrap_u64 n = n % 18446744073709551616

  -- A resume checked against the pinned turn, with the session of the model the turn started on.
  unfoldable pub resumed : ResumeRequest → TurnInput → Result TurnSession BrainError
  unfolding same_provider same_attachments
  resumed request input =
      let fixed = wrap_u64 (
        fixed_tokens shop.py input.system (map tool_value input.tools)
        + input.context.attachments.charge) in
      let conversation = sum_u64 (map (message_tokens shop.py) input.messages) in
      let results = estimated_tokens shop.py (object request.results) in
      if not (same_provider request input)
      then err (contract "model provider changed during the pending turn")
      else if not (same_attachments request input)
      then err (contract "attachments changed during the pending turn")
      else fitted (ensure_window fixed (wrap_u64 (conversation + results))) >>= λ _. ok (record {
        provider = record {
          provider = input.context.provider;
          model = input.context.model;
          api_key = request.turn.provider.api_key;
        };
        attachments = request.turn.attachments;
      })
