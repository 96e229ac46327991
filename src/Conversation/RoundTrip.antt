-- ===== src/Conversation/RoundTrip.antt =====
-- What the store and the ledger read back: runtime/src/conversation.rs, both directions.
use shimpz_brain.Base.{
  ℕ, ◌≤◌, ◌<◌, ◌^◌, true, Option, none, some, List, [], ◌∷◌, ◌≡◌, ◌≢◌, refl, map, collect,
  collect-map, arith, All, unwrap_or, All-collect,
}
use shimpz_brain.Json.Types.{Value, null, arr, values, values-of_values, get}
use shimpz_brain.Json.{uint, str_of, u64_of, bool_of, array_of, as_u64, has_exactly}
use shimpz_brain.Conversation.{
  ToolCall, InvalidCall, AssistantMessage, Message, user, assistant, tool, is_object, call_value,
  call_from, invalid_value, invalid_from, raw_value, raw_from, attempts_from, assistant_value,
  assistant_from, message_value, message_from, user_from, tool_from, to_value, from_value,
}

-- What a stored model turn keeps: its calls' arguments are objects, its raw content is not `null`
-- and its attempts fit a `u32` and are at least one.
pub record IsStorable (m : AssistantMessage) : Type 0 where
  pub calls_ok : All (λ (c : ToolCall). is_object c.arguments ≡ true) m.calls
  pub raw_ok : m.raw ≢ some null
  pub attempts_pos : 1 ≤ m.attempts
  pub attempts_u32 : m.attempts < 2 ^ 32

abbrev pub IsStored : Message → Type 0
IsStored (assistant m) = IsStorable m
IsStored _ = Unit

call_from-call_value :
    (c : ToolCall) → is_object c.arguments ≡ true → call_from (call_value c) ≡ some c
unfolding call_from call_value str_of u64_of bool_of array_of has_exactly get
call_from-call_value c h = rw h

invalid_from-invalid_value : (c : InvalidCall) → invalid_from (invalid_value c) ≡ some c
unfolding invalid_from invalid_value str_of u64_of bool_of array_of has_exactly get
invalid_from-invalid_value c = refl

calls_back :
    (cs : List ToolCall)
    → All (λ (c : ToolCall). is_object c.arguments ≡ true) cs
    → collect call_from (map call_value cs) ≡ some cs
calls_back [] h = refl
calls_back (c ∷ cs) (p, h) = rw (call_from-call_value c p) (rw (calls_back cs h))

attempts_back : (n : ℕ) → 1 ≤ n → n < 2 ^ 32 → attempts_from n ≡ some n
unfolding attempts_from
attempts_back n h k = ground arith

raw_back : (r : Option Value) → r ≢ some null → raw_from (raw_value r) ≡ r
unfolding raw_from raw_value
raw_back none h = refl
raw_back (some null) h = absurd (h refl)
raw_back (some _) h = refl

uint_small : (n : ℕ) → n < 2 ^ 32 → as_u64 (uint n) ≡ some n
unfolding as_u64 uint
uint_small n h = ground arith

assistant_from-assistant_value :
    (m : AssistantMessage) → IsStorable m → assistant_from (assistant_value m) ≡ some m
unfolding assistant_from assistant_value str_of u64_of bool_of array_of has_exactly get
assistant_from-assistant_value m h =
    rw (values-of_values (map call_value m.calls), calls_back m.calls h.calls_ok)
      (rw
        (
          values-of_values (map invalid_value m.invalid_calls),
          collect-map invalid_value invalid_from invalid_from-invalid_value m.invalid_calls,
        )
        (rw (
          uint_small m.attempts h.attempts_u32,
          attempts_back m.attempts h.attempts_pos h.attempts_u32,
          raw_back m.raw h.raw_ok,
        )))

message_from-message_value : (m : Message) → IsStored m → message_from (message_value m) ≡ some m
unfolding message_from message_value user_from tool_from str_of u64_of bool_of array_of has_exactly
    get
message_from-message_value (user id content) h = refl
message_from-message_value (assistant m) h = rw (assistant_from-assistant_value m h)
message_from-message_value (tool m) h = refl

messages_back :
    (ms : List Message) → All IsStored ms → collect message_from (map message_value ms) ≡ some ms
messages_back [] h = refl
messages_back (m ∷ ms) (p, h) = rw (message_from-message_value m p) (rw (messages_back ms h))

-- A conversation whose model turns are storable is read back from its JSON form exactly.
pub from_value-to_value : (ms : List Message) → All IsStored ms → from_value (to_value ms) ≡ some ms
unfolding from_value to_value
from_value-to_value ms h = rw (values-of_values (map message_value ms)) (messages_back ms h)

call_from-is_object :
    (v : Value) (c : ToolCall) → call_from v ≡ some c → is_object c.arguments ≡ true
unfolding call_from
call_from-is_object v c h = ground arith

attempts_from_bounds : (n k : ℕ) → attempts_from n ≡ some k → (1 ≤ k) × (k < 2 ^ 32)
unfolding attempts_from
attempts_from_bounds n k h = ground arith

raw_from-ne-null : (v : Value) → raw_from v ≢ some null
unfolding raw_from
raw_from-ne-null null = ground arith
raw_from-ne-null _ = ground arith

-- What a decoded model turn was decoded from.
assistant_from_parts :
    (v : Value) (m : AssistantMessage)
    → assistant_from v ≡ some m
    → (collect call_from (unwrap_or (array_of v "calls") []) ≡ some m.calls)
      × (m.raw ≡ raw_from (unwrap_or (get v "raw") null))
      × (attempts_from (unwrap_or (u64_of v "attempts") 0) ≡ some m.attempts)
unfolding assistant_from
assistant_from_parts v m h = ground arith

assistant_from-IsStorable :
    (v : Value) (m : AssistantMessage) → assistant_from v ≡ some m → IsStorable m
assistant_from-IsStorable v m h =
    let (calls, raw, attempts) = assistant_from_parts v m h in
    let (least, most) = attempts_from_bounds _ _ attempts in
    record {
      calls_ok = All-collect _ call_from call_from-is_object _ _ calls;
      raw_ok = rw raw (raw_from-ne-null _);
      attempts_pos = least;
      attempts_u32 = most;
    }

message_from-IsStored : (v : Value) (m : Message) → message_from v ≡ some m → IsStored m
unfolding message_from user_from tool_from
message_from-IsStored v (user id content) h = tt
message_from-IsStored v (assistant m) h = assistant_from-IsStorable v m (ground arith)
message_from-IsStored v (tool m) h = tt

-- The decoder admits only storable conversations: whatever JSON it accepts, every call of every
-- model turn has object arguments, raw content is not `null`, and attempts lie in 1 .. 2 ^ 32 - 1.
pub from_value-IsStored : (v : Value) (ms : List Message) → from_value v ≡ some ms → All IsStored ms
unfolding from_value
from_value-IsStored (arr items) ms h =
    All-collect IsStored message_from message_from-IsStored (values items) ms h
from_value-IsStored _ ms h = absurd (cc)
