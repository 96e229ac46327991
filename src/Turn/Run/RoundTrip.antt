-- ===== src/Turn/Run/RoundTrip.antt =====
-- Every journal form is read back (runtime/src/turn/run.rs), given that the strict reader reads what
-- the compact writer wrote for the value at hand.
use shimpz_brain.Base.{
  ◌<◌, ◌^◌, String, eq_iff, eq_refl, Bool, Option, none, some, ◌≡◌, ◌≢◌, refl, map, collect-map,
  All, arith,
}
use shimpz_brain.Json.Types.{Value, values-of_values, get}
use shimpz_brain.Json.{object, array, text, str_of, u64_of, bool_of, array_of, has_exactly}
use shimpz_brain.Conversation.RoundTrip.{IsStored, from_value-to_value}
use shimpz_brain.Turn.Context.RoundTrip.{IsPinnable, context_from-context_value, uint_back}
use shimpz_brain.Python.{Python}
use shimpz_brain.Turn.Run.{
  journal_get, journal_str, ToolSpec, TurnInput, strict_value, strict_from, tool_value, tool_from,
  input_value, input_from, TeamRequest, action, browse, request_name, request_value, request_from,
  unwrap_text, wrap_text, input_json, input_from_json, request_json, request_from_json, answer_json,
  answer_from,
}

-- What a journaled input needs to be read back: a pinnable context, storable messages, and a start
-- within `i64`.
pub record IsJournaled (i : TurnInput) : Type 0 where
  pub context_ok : IsPinnable i.context
  pub messages_ok : All IsStored i.messages
  pub start_i64 : i.turn_start < 2 ^ 63

strict_back : (o : Option Bool) → strict_from (strict_value o) ≡ some o
unfolding strict_from strict_value
strict_back none = refl
strict_back (some b) = refl

tool_back : (t : ToolSpec) → tool_from (tool_value t) ≡ some t
unfolding tool_from tool_value object text str_of has_exactly get
tool_back t = rw (strict_back t.strict)

input_back : (i : TurnInput) → IsJournaled i → input_from (input_value i) ≡ some i
unfolding input_from input_value object array text str_of u64_of bool_of array_of has_exactly get
input_back i h =
    rw
      (
        context_from-context_value i.context h.context_ok,
        values-of_values (map tool_value i.tools),
        collect-map tool_value tool_from tool_back i.tools,
      )
      (rw (from_value-to_value i.messages h.messages_ok, uint_back i.turn_start h.start_i64))

request_back : (r : TeamRequest) → request_from (request_name r) (request_value r) ≡ some r
unfolding request_from request_name request_value object text str_of has_exactly get
request_back (action id assistant_id name input) = refl
request_back (browse id objective) = refl

request_other :
    (r : TeamRequest) (name : String)
    → name ≢ request_name r
    → request_from name (request_value r) ≡ none
unfolding request_from request_name request_value object text str_of has_exactly get
request_other (action id assistant_id act input) name h = ground (arith, eq_iff name "action")
request_other (browse id objective) name h = ground (arith, eq_iff name "browser")

module _ (py : Python) where
  -- A started turn's journaled input is read back exactly.
  pub input_from_json-input_json :
      (i : TurnInput)
      → IsJournaled i
      → py.parse (py.compact (input_value i)) ≡ some (input_value i)
      → input_from_json py (input_json py i) ≡ some i
  unfolding input_from_json input_json unwrap_text wrap_text journal_get journal_str
  input_from_json-input_json i h codec = rw codec (input_back i h)

  -- A Team request is read back under its own name, given that the strict reader reads what the
  -- compact writer wrote for it.
  pub request_from_json-request_json :
      (r : TeamRequest)
      → py.parse (py.compact (request_value r)) ≡ some (request_value r)
      → request_from_json py (request_name r) (request_json py r) ≡ some r
  unfolding request_from_json request_json unwrap_text wrap_text journal_get journal_str
  request_from_json-request_json r codec = rw codec (request_back r)

  -- Under any other name a Team request is refused, given the same of the reader and the writer: an
  -- Action is never taken for a browser task, nor a browser task for an Action.
  pub request_from_json_other :
      (r : TeamRequest) (name : String)
      → py.parse (py.compact (request_value r)) ≡ some (request_value r)
      → name ≢ request_name r
      → request_from_json py name (request_json py r) ≡ none
  unfolding request_from_json request_json unwrap_text wrap_text journal_get journal_str
  request_from_json_other r name codec other = rw codec (request_other r name other)

  -- A model call's answer, a recorded null included, is read back under its key.
  pub answer_from-answer_json :
      (key : String) (o : Option Value)
      → ((v : Value) → o ≡ some v → py.parse (py.compact v) ≡ some v)
      → answer_from py (answer_json py key o) key ≡ some o
  unfolding answer_from answer_json journal_get
  answer_from-answer_json key none codec = rw (eq_refl key)
  answer_from-answer_json key (some v) codec = rw (eq_refl key) (rw (codec v refl))
