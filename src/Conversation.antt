-- ===== src/Conversation.antt =====
-- runtime/src/conversation.rs: a conversation, and its strict JSON form in the thread store and the
-- run ledger.
pub mod RoundTrip
use shimpz_brain.Base.{
  ℕ, suc, ◌^◌, String, str_eq, Bool, true, false, ◌&&◌, Option, none, some, List, [], ◌∷◌, ltb, leb,
  map, collect, if◌then◌else◌, ◌>>=◌, ◌>>◌, then_some,
}
use shimpz_brain.Json.Types.{Value, null, bool, obj, arr, values, get}
use shimpz_brain.Json.{object, array, text, uint, str_of, u64_of, bool_of, array_of, has_exactly}

pub record ToolCall : Type 0 where
  pub id : String
  pub name : String
  pub arguments : Value

pub record InvalidCall : Type 0 where
  pub id : String
  pub name : String
  pub arguments : String

pub record AssistantMessage : Type 0 where
  pub id : String
  pub text : String
  pub calls : List ToolCall
  pub invalid_calls : List InvalidCall
  pub refusal : Bool
  pub truncated : Bool
  pub provider : String
  pub raw : Option Value
  pub attempts : ℕ  -- u32

pub record ToolMessage : Type 0 where
  pub id : String
  pub call_id : String
  pub name : String
  pub content : String
  pub error : Bool

pub data Message : Type 0 where
  user : (id : String) (text : String) → Message
  assistant : AssistantMessage → Message
  tool : ToolMessage → Message

-- `Message::id`.
unfoldable pub message_id : Message → String
message_id (user id text) = id
message_id (assistant m) = m.id
message_id (tool m) = m.id

-- `Message::assistant` and `Message::tool`.
unfoldable pub as_assistant : Message → Option AssistantMessage
as_assistant (assistant m) = some m
as_assistant _ = none

unfoldable pub as_tool : Message → Option ToolMessage
as_tool (tool m) = some m
as_tool _ = none

-- `matches!(message, Message::User { .. })`.
unfoldable pub is_user : Message → Bool
is_user (user id text) = true
is_user _ = false

-- One element of `calls` as `assistant_value` writes it, and as `assistant_from` reads it.
unfoldable pub call_value : ToolCall → Value
unfolding object text
call_value call =
    object (("id", text call.id) ∷ ("name", text call.name) ∷ ("arguments", call.arguments) ∷ [])

unfoldable pub invalid_value : InvalidCall → Value
unfolding object text
invalid_value call =
    object
      (("id", text call.id) ∷ ("name", text call.name) ∷ ("arguments", text call.arguments) ∷ [])

abbrev pub is_object : Value → Bool
is_object (obj ms) = true
is_object _ = false

abbrev call_fields : List String
call_fields = "id" ∷ "name" ∷ "arguments" ∷ []

unfoldable pub call_from : Value → Option ToolCall
call_from call = do
  arguments ← get call "arguments"
  then_some (has_exactly call call_fields)
  then_some (is_object arguments)
  id ← str_of call "id"
  name ← str_of call "name"
  some (record { id = id; name = name; arguments = arguments })

unfoldable pub invalid_from : Value → Option InvalidCall
invalid_from call = do
  then_some (has_exactly call call_fields)
  id ← str_of call "id"
  name ← str_of call "name"
  arguments ← str_of call "arguments"
  some (record { id = id; name = name; arguments = arguments })

-- `raw.clone().unwrap_or(Value::Null)`, and its reader.
unfoldable pub raw_value : Option Value → Value
raw_value none = null
raw_value (some v) = v

unfoldable pub raw_from : Value → Option Value
raw_from null = none
raw_from v = some v

-- `u32::try_from(..).ok().filter(|attempts| *attempts >= 1)`.
unfoldable pub attempts_from : ℕ → Option ℕ
attempts_from n = if ltb n (2 ^ 32) && leb 1 n then some n else none

abbrev assistant_fields : List String
assistant_fields =
    "role" ∷ "id" ∷ "text" ∷ "calls" ∷ "invalid_calls" ∷ "refusal" ∷ "truncated" ∷ "provider"
    ∷ "raw" ∷ "attempts" ∷ []

unfoldable pub assistant_value : AssistantMessage → Value
unfolding object text array
assistant_value m = object (
    ("role", text "assistant")
    ∷ ("id", text m.id)
    ∷ ("text", text m.text)
    ∷ ("calls", array (map call_value m.calls))
    ∷ ("invalid_calls", array (map invalid_value m.invalid_calls))
    ∷ ("refusal", bool m.refusal)
    ∷ ("truncated", bool m.truncated)
    ∷ ("provider", text m.provider)
    ∷ ("raw", raw_value m.raw)
    ∷ ("attempts", uint m.attempts)
    ∷ [])

unfoldable pub assistant_from : Value → Option AssistantMessage
assistant_from value = do
  then_some (has_exactly value assistant_fields)
  call_items ← array_of value "calls"
  calls ← collect call_from call_items
  invalid_items ← array_of value "invalid_calls"
  invalid_calls ← collect invalid_from invalid_items
  raw ← get value "raw"
  id ← str_of value "id"
  content ← str_of value "text"
  refusal ← bool_of value "refusal"
  truncated ← bool_of value "truncated"
  provider ← str_of value "provider"
  count ← u64_of value "attempts"
  attempts ← attempts_from count
  some (record {
    id = id;
    text = content;
    calls = calls;
    invalid_calls = invalid_calls;
    refusal = refusal;
    truncated = truncated;
    provider = provider;
    raw = raw_from raw;
    attempts = attempts;
  })

-- `Message::to_value`.
unfoldable pub message_value : Message → Value
unfolding object text assistant_value
message_value (user id content) =
    object (("role", text "user") ∷ ("id", text id) ∷ ("text", text content) ∷ [])
message_value (assistant m) = assistant_value m
message_value (tool m) = object (
    ("role", text "tool")
    ∷ ("id", text m.id)
    ∷ ("call_id", text m.call_id)
    ∷ ("name", text m.name)
    ∷ ("content", text m.content)
    ∷ ("error", bool m.error)
    ∷ [])

unfoldable pub user_from : Value → Option Message
user_from value = do id ← str_of value "id"; content ← str_of value "text"; some (user id content)

unfoldable pub tool_from : Value → Option Message
tool_from value = do
  id ← str_of value "id"
  call_id ← str_of value "call_id"
  name ← str_of value "name"
  content ← str_of value "content"
  error ← bool_of value "error"
  some (tool (record { id = id; call_id = call_id; name = name; content = content; error = error }))

abbrev user_fields : List String
user_fields = "role" ∷ "id" ∷ "text" ∷ []

abbrev tool_fields : List String
tool_fields = "role" ∷ "id" ∷ "call_id" ∷ "name" ∷ "content" ∷ "error" ∷ []

-- `Message::from_value`.
unfoldable pub message_from : Value → Option Message
message_from value = do
  role ← str_of value "role"
  if str_eq role "user" && has_exactly value user_fields
      then user_from value
      else if str_eq role "assistant"
      then (assistant_from value >>= λ m. some (assistant m))
      else if str_eq role "tool" && has_exactly value tool_fields
      then tool_from value
      else none

-- `to_value` and `from_value` of a conversation.
unfoldable pub to_value : List Message → Value
unfolding message_value array
to_value messages = array (map message_value messages)

unfoldable pub from_value : Value → Option (List Message)
unfolding message_from
from_value (arr items) = collect message_from (values items)
from_value _ = none
