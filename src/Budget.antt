-- ===== src/Budget.antt =====
-- runtime/src/budget.rs: the token estimates, the split of history into exchanges, what a new turn
-- forgets, and which older Action results it omits. `u64` sums of `iter().sum()` wrap, as the
-- release build's do; `saturating_add` stops at the largest `u64`.
pub mod Split
pub mod Exchanges
pub mod History
pub mod Omission
use Prim.Native.Nat.{min}
use Prim.Native.String.{len}
use mathlib.Core.List.{reverse}
use shimpz_brain.Base.{
  ℕ, zero, suc, ◌+◌, ◌-◌, ◌/◌, ◌%◌, ◌^◌, String, starts_with, Bool, true, false, not, ◌&&◌, ◌||◌,
  Option, none, some, List, [], ◌∷◌, ◌++◌, map, ltb, leb, ◌==◌, if◌then◌else◌, length, any, filter,
  last, concat, take, drop, get_elem?, is_empty, Result, ok, err, is_nil, unwrap_or,
}
use shimpz_brain.Json.Types.{Value, null}
use shimpz_brain.Json.{object, array, text}
use shimpz_brain.Conversation.{
  ToolCall, InvalidCall, AssistantMessage, ToolMessage, Message, user, assistant, tool, message_id,
  as_assistant, as_tool, is_user,
}
use shimpz_brain.Python.{Python}

abbrev pub bridge_id_prefix : String
bridge_id_prefix = "shimpz-context-"

abbrev pub max_history_exchanges : ℕ
max_history_exchanges = 24

abbrev pub history_budget_tokens : ℕ
history_budget_tokens = 128000

abbrev pub model_window_tokens : ℕ
model_window_tokens = 1000000

abbrev pub output_reserve_tokens : ℕ
output_reserve_tokens = 128000

abbrev pub bytes_per_token : ℕ
bytes_per_token = 3

abbrev pub keep_result_exchanges : ℕ
keep_result_exchanges = 2

abbrev pub omit_results_trigger_tokens : ℕ
omit_results_trigger_tokens = 8000

abbrev pub omitted_result : String
omitted_result =
    "[Earlier Action result omitted to save context. This note does not say whether the call ran or what it changed; the reply that ended that exchange does. Never repeat a change to recover this result. If the current request needs its data, read it again.]"

-- `u64::MAX`.
abbrev pub max_u64 : ℕ
max_u64 = 18446744073709551615

abbrev pub saturating_add : ℕ → ℕ → ℕ
saturating_add a b = if leb (a + b) max_u64 then a + b else max_u64

-- `iter().sum::<u64>()`.
abbrev pub sum_u64 : List ℕ → ℕ
sum_u64 [] = 0
sum_u64 (n ∷ ns) = (n + sum_u64 ns) % 18446744073709551616

pub data FitError : Type 0 where
  window state : FitError

pub record Limits : Type 0 where
  pub exchanges : ℕ
  pub history : ℕ
  pub window : ℕ
  pub omit_trigger : ℕ

-- `LIMITS`.
unfoldable pub policy_limits : Limits
policy_limits = record {
  exchanges = max_history_exchanges;
  history = history_budget_tokens;
  window = model_window_tokens;
  omit_trigger = omit_results_trigger_tokens;
}

-- The JSON object whose size `message_tokens` estimates.
estimated_call : ToolCall → Value
estimated_call call = object (
    ("name", text call.name)
    ∷ ("args", call.arguments)
    ∷ ("id", text call.id)
    ∷ ("type", text "tool_call")
    ∷ [])

estimated_invalid : InvalidCall → Value
estimated_invalid call = object (
    ("name", text call.name)
    ∷ ("args", text call.arguments)
    ∷ ("id", text call.id)
    ∷ ("error", null)
    ∷ ("type", text "invalid_tool_call")
    ∷ [])

estimated_assistant : AssistantMessage → Value
estimated_assistant turn = object (
    ("content", unwrap_or turn.raw (text turn.text))
    ∷ ("tool_calls", array (map estimated_call turn.calls))
    ∷ ("invalid_tool_calls", array (map estimated_invalid turn.invalid_calls))
    ∷ [])

-- `message_value`.
unfoldable pub estimated_value : Message → Value
unfolding estimated_assistant estimated_call estimated_invalid
estimated_value (user id content) = object (("content", text content) ∷ [])
estimated_value (tool result) = object (("content", text result.content) ∷ [])
estimated_value (assistant turn) = estimated_assistant turn

-- `bridge`.
unfoldable pub is_bridge : Message → Bool
is_bridge (user id content) = starts_with id bridge_id_prefix
is_bridge _ = false

-- `joins`: the message right after a bridge belongs to the bridge's exchange.
unfoldable pub joins : List Message → ℕ → List ℕ → Bool
unfolding is_bridge
joins messages index starts = elim (last starts) [
  | none ↦ false
  | some start ↦
      (index - start == 1)
      && elim (get_elem? messages start) [ none ↦ false | some m ↦ is_bridge m ]
]

-- The loop of `exchanges` from `index` on; `rest` is `messages[index..]`.
unfoldable pub starts_from : List Message → ℕ → List ℕ → List Message → Result (List ℕ) FitError
starts_from messages index starts [] = ok starts
starts_from messages index starts (m ∷ rest) =
    let opens = is_user m && not (joins messages index starts) in
    let next = if opens then starts ++ index ∷ [] else starts in
    let later = starts_from messages (suc index) next rest in
    if is_empty (message_id m)
    then err state
    else if not opens && is_nil starts
    then err state
    else later

-- `&messages[start..stop]`.
unfoldable pub slice : List Message → ℕ → ℕ → List Message
slice messages start stop = take (stop - start) (drop start messages)

-- Each start zipped with the next one, the last with `stop`.
unfoldable pub cut : List Message → ℕ → List ℕ → List (List Message)
cut messages stop [] = []
cut messages stop (s ∷ []) = slice messages s stop ∷ []
cut messages stop (s ∷ t ∷ starts) = slice messages s t ∷ cut messages stop (t ∷ starts)

unfoldable pub exchanges : List Message → Result (List (List Message)) FitError
exchanges messages = elim (starts_from messages 0 [] messages) [
  | ok starts ↦ ok (cut messages (length messages) starts)
  | err e ↦ err e
]

unfoldable pub truncated : Message → Bool
truncated (assistant turn) = turn.truncated
truncated _ = false

-- `window_within`.
unfoldable pub window_within : Limits → ℕ → ℕ → Result (Unit {0}) FitError
window_within limits fixed conversation =
    let needed = saturating_add (saturating_add fixed conversation) output_reserve_tokens in
    if ltb limits.window needed then err window else ok tt

unfoldable pub ensure_window : ℕ → ℕ → Result (Unit {0}) FitError
unfolding window_within policy_limits
ensure_window fixed conversation = window_within policy_limits fixed conversation

abbrev pub is_err {ℓ κ} : {A : Type ℓ} {E : Type κ} → Result A E → Bool
is_err (ok a) = false
is_err (err e) = true

-- The ids of the exchanges whose flag is off.
unfoldable pub dropped : List (List Message) → List Bool → List String
dropped [] flags = []
dropped (g ∷ gs) [] = []
dropped (g ∷ gs) (true ∷ flags) = dropped gs flags
dropped (g ∷ gs) (false ∷ flags) = map message_id g ++ dropped gs flags

module _ (py : Python) where
  unfoldable pub estimated_tokens : Value → ℕ
  estimated_tokens value = (min (len (py.compact value)) max_u64 + 2) / bytes_per_token

  unfoldable pub message_tokens : Message → ℕ
  message_tokens message = estimated_tokens (estimated_value message)

  -- The fold of `fixed_tokens`.
  fixed_from : ℕ → List Value → ℕ
  fixed_from sum [] = sum
  fixed_from sum (t ∷ tools) = fixed_from (saturating_add sum (estimated_tokens t)) tools

  unfoldable pub fixed_tokens : String → List Value → ℕ
  unfolding fixed_from
  fixed_tokens system tools = fixed_from (estimated_tokens (text system)) tools

  unfoldable pub final_reply : Message → String
  final_reply (assistant turn) =
      if is_nil turn.calls && is_nil turn.invalid_calls && not turn.truncated
      then py.strip turn.text
      else ""
  final_reply _ = ""

  unfoldable pub completed : List Message → Bool
  completed exchange = elim (last exchange) [
    | none ↦ false
    | some m ↦ not (is_empty (final_reply m))
  ]

  -- A completed exchange without a forgotten message.
  unfoldable pub eligible : (Message → Bool) → List Message → Bool
  eligible forgotten group = completed group && not (any forgotten group)

  unfoldable pub group_tokens : List Message → ℕ
  group_tokens group = sum_u64 (map message_tokens group)

  -- Whether the loop of `drop_within` breaks at an eligible group.
  unfoldable pub breaks : Limits → ℕ → ℕ → ℕ → ℕ → List Message → Bool
  breaks limits fixed current count used group =
      let total = saturating_add used (group_tokens group) in
      (count == limits.exchanges)
      || ltb limits.history total
      || is_err (window_within limits (saturating_add fixed total) current)

  -- The loop of `drop_within` over the groups, newest first; the flags say which are kept.
  unfoldable pub keep_from :
      Limits → ℕ → ℕ → (Message → Bool) → ℕ → ℕ → List (List Message) → List Bool
  keep_from limits fixed current forgotten count used [] = []
  keep_from limits fixed current forgotten count used (g ∷ gs) =
      let total = saturating_add used (group_tokens g) in
      let skip = false ∷ keep_from limits fixed current forgotten count used gs in
      let keep = true ∷ keep_from limits fixed current forgotten (suc count) total gs in
      if not (eligible forgotten g)
      then skip
      else if breaks limits fixed current count used g
      then false ∷ map (λ _. false) gs
      else keep

  unfoldable pub drop_within :
      Limits → List Message → ℕ → ℕ → (Message → Bool) → Result (List String) FitError
  drop_within limits history fixed current forgotten = elim (window_within limits fixed current) [
    | err e ↦ err e
    | ok _ ↦ elim (exchanges history) [
      | err e ↦ err e
      | ok groups ↦
          ok (
            dropped groups
              (reverse (keep_from limits fixed current forgotten 0 0 (reverse groups))))
    ]
  ]

  unfoldable pub history_to_drop :
      List Message → ℕ → ℕ → (Message → Bool) → Result (List String) FitError
  unfolding drop_within policy_limits
  history_to_drop history fixed current forgotten =
      drop_within policy_limits history fixed current forgotten

  -- What replaces a result, and what it saves.
  unfoldable pub placeholder : ToolMessage → ToolMessage
  placeholder result = record result { content = omitted_result }

  unfoldable pub gain : ToolMessage → ℕ
  gain result = message_tokens (tool result) - message_tokens (tool (placeholder result))

  -- The loop of `omit_within`.
  unfoldable pub omit_from :
      (ToolMessage → Bool) → List ToolMessage → ℕ → List Message → List ToolMessage × ℕ
  omit_from action_result placeholders saved [] = (placeholders, saved)
  omit_from action_result placeholders saved (tool r ∷ ms) =
      let more =
        omit_from action_result (placeholders ++ placeholder r ∷ []) (saturating_add saved (gain r))
          ms in
      let same = omit_from action_result placeholders saved ms in
      if action_result r && ltb 0 (gain r) then more else same
  omit_from action_result placeholders saved (_ ∷ ms) =
      omit_from action_result placeholders saved ms

  -- The exchanges that may give results: `done[..done.len().saturating_sub(KEEP_RESULT_EXCHANGES)]`.
  unfoldable pub older : (Message → Bool) → List (List Message) → List (List Message)
  older forgotten groups =
      let done = filter (eligible forgotten) groups in
      take (length done - keep_result_exchanges) done

  unfoldable pub omit_within :
      Limits
      → List Message
      → (ToolMessage → Bool)
      → (Message → Bool)
      → Result (List ToolMessage) FitError
  omit_within limits history action_result forgotten = elim (exchanges history) [
    | err e ↦ err e
    | ok groups ↦
        let (placeholders, saved) =
          omit_from action_result [] 0 (concat (older forgotten groups)) in
        ok (if leb limits.omit_trigger saved then placeholders else [])
  ]

  unfoldable pub results_to_omit :
      List Message → (ToolMessage → Bool) → (Message → Bool) → Result (List ToolMessage) FitError
  unfolding omit_within policy_limits
  results_to_omit history action_result forgotten =
      omit_within policy_limits history action_result forgotten
