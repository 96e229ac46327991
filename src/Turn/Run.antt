-- ===== src/Turn/Run.antt =====
-- runtime/src/turn/run.rs: what a turn's run journals. `serde_json::Value` is the ledger's own JSON,
-- of which the Brain writes one-member objects.
pub mod RoundTrip
use shimpz_brain.Base.{
  ℕ, String, str_eq, Bool, true, false, ◌&&◌, Option, none, some, List, [], ◌∷◌, map, collect,
  if◌then◌else◌, ◌>>=◌, ◌>>◌, then_some,
}
use shimpz_brain.Json.Types.{Value, null, bool, get}
use shimpz_brain.Json.{object, array, text, uint, str_of, u64_of, bool_of, array_of, has_exactly}
use shimpz_brain.Conversation.{Message, to_value, from_value}
use shimpz_brain.Turn.Context.{TurnContext, context_value, context_from}
use shimpz_brain.Python.{Python}

mutual
  pub data Journal : Type 0 where
    absent : Journal
    written : String → Journal
    entries : Entries → Journal

  pub data Entries : Type 0 where
    done : Entries
    entry : String → Journal → Entries → Entries

abbrev find_entry : String → Entries → Option Journal
find_entry key done = none
find_entry key (entry name j rest) =
    let later = find_entry key rest in if str_eq name key then some j else later

-- `serde_json::Value::get` and `as_str`.
unfoldable pub journal_get : Journal → String → Option Journal
journal_get (entries es) key = find_entry key es
journal_get _ key = none

unfoldable pub journal_str : Journal → Option String
journal_str (written s) = some s
journal_str _ = none

abbrev one_entry : String → Journal → Journal
one_entry key j = entries (entry key j done)

abbrev pub action_name : String
action_name = "action"

abbrev pub browser_name : String
browser_name = "browser"

-- `ToolSpec` of runtime/src/provider/mod.rs.
pub record ToolSpec : Type 0 where
  pub name : String
  pub description : String
  pub schema : Value
  pub strict : Option Bool

pub record TurnInput : Type 0 where
  pub context : TurnContext
  pub system : String
  pub tools : List ToolSpec
  pub messages : List Message
  pub turn_start : ℕ
  pub memory_tool : Bool
  pub routine_tool : Bool
  pub browser : Bool

unfoldable pub strict_value : Option Bool → Value
strict_value none = null
strict_value (some b) = bool b

unfoldable pub strict_from : Value → Option (Option Bool)
strict_from null = some none
strict_from (bool b) = some (some b)
strict_from _ = none

unfoldable pub tool_value : ToolSpec → Value
tool_value tool = object (
    ("name", text tool.name)
    ∷ ("description", text tool.description)
    ∷ ("schema", tool.schema)
    ∷ ("strict", strict_value tool.strict)
    ∷ [])

abbrev tool_fields : List String
tool_fields = "name" ∷ "description" ∷ "schema" ∷ "strict" ∷ []

unfoldable pub tool_from : Value → Option ToolSpec
tool_from value = do
  then_some (has_exactly value tool_fields)
  item ← get value "strict"
  strict ← strict_from item
  name ← str_of value "name"
  description ← str_of value "description"
  schema ← get value "schema"
  some (record { name = name; description = description; schema = schema; strict = strict })

-- The strict JSON inside `TurnInput::to_json`, and its reader.
unfoldable pub input_value : TurnInput → Value
input_value input = object (
    ("context", context_value input.context)
    ∷ ("system", text input.system)
    ∷ ("tools", array (map tool_value input.tools))
    ∷ ("messages", to_value input.messages)
    ∷ ("turn_start", uint input.turn_start)
    ∷ ("memory_tool", bool input.memory_tool)
    ∷ ("routine_tool", bool input.routine_tool)
    ∷ ("browser", bool input.browser)
    ∷ [])

abbrev input_fields : List String
input_fields =
    "context" ∷ "system" ∷ "tools" ∷ "messages" ∷ "turn_start" ∷ "memory_tool" ∷ "routine_tool"
    ∷ "browser" ∷ []

unfoldable pub input_from : Value → Option TurnInput
input_from value = do
  then_some (has_exactly value input_fields)
  pinned ← get value "context"
  context ← context_from pinned
  system ← str_of value "system"
  items ← array_of value "tools"
  tools ← collect tool_from items
  kept ← get value "messages"
  messages ← from_value kept
  turn_start ← u64_of value "turn_start"
  memory_tool ← bool_of value "memory_tool"
  routine_tool ← bool_of value "routine_tool"
  browser ← bool_of value "browser"
  some (record {
    context = context;
    system = system;
    tools = tools;
    messages = messages;
    turn_start = turn_start;
    memory_tool = memory_tool;
    routine_tool = routine_tool;
    browser = browser;
  })

pub data TeamRequest : Type 0 where
  action : (interrupt_id assistant_id action : String) (input : Value) → TeamRequest
  browse : (interrupt_id objective : String) → TeamRequest

unfoldable pub interrupt_id : TeamRequest → String
interrupt_id (action id assistant_id name input) = id
interrupt_id (browse id objective) = id

unfoldable pub request_name : TeamRequest → String
request_name (action id assistant_id name input) = action_name
request_name (browse id objective) = browser_name

unfoldable pub request_value : TeamRequest → Value
request_value (action id assistant_id name input) = object (
    ("interrupt_id", text id)
    ∷ ("assistant_id", text assistant_id)
    ∷ ("action", text name)
    ∷ ("input", input)
    ∷ [])
request_value (browse id objective) =
    object (("interrupt_id", text id) ∷ ("objective", text objective) ∷ [])

abbrev action_request_fields : List String
action_request_fields = "interrupt_id" ∷ "assistant_id" ∷ "action" ∷ "input" ∷ []

abbrev browser_request_fields : List String
browser_request_fields = "interrupt_id" ∷ "objective" ∷ []

action_request_from : Value → String → Option TeamRequest
action_request_from value id = do
  assistant_id ← str_of value "assistant_id"
  name ← str_of value "action"
  input ← get value "input"
  some (action id assistant_id name input)

browser_request_from : Value → String → Option TeamRequest
browser_request_from value id = do objective ← str_of value "objective"; some (browse id objective)

unfoldable pub request_from : String → Value → Option TeamRequest
unfolding action_request_from browser_request_from
request_from name value = do
  id ← str_of value "interrupt_id"
  if str_eq name action_name && has_exactly value action_request_fields
      then action_request_from value id
      else if str_eq name browser_name && has_exactly value browser_request_fields
      then browser_request_from value id
      else none

module _ (py : Python) where
  -- `unwrap_text`.
  unfoldable pub unwrap_text : Journal → String → Option Value
  unwrap_text value key = journal_get value key >>= journal_str >>= py.parse

  -- `json!({ key: json::compact(value) })`: `result_json`, `outcome_json` and `call_json`.
  unfoldable pub wrap_text : String → Value → Journal
  wrap_text key value = one_entry key (written (py.compact value))

  -- `TurnInput::to_json` and `TurnInput::from_json`.
  unfoldable pub input_json : TurnInput → Journal
  input_json input = wrap_text "turn" (input_value input)

  unfoldable pub input_from_json : Journal → Option TurnInput
  input_from_json input = unwrap_text input "turn" >>= input_from

  -- `TeamRequest::to_json` and `TeamRequest::from_json`.
  unfoldable pub request_json : TeamRequest → Journal
  request_json request = wrap_text "request" (request_value request)

  unfoldable pub request_from_json : String → Journal → Option TeamRequest
  request_from_json name request = unwrap_text request "request" >>= request_from name

  -- A model call's answer under `key`; the inner `none` is a recorded null.
  unfoldable pub answer_json : String → Option Value → Journal
  answer_json key none = one_entry key absent
  answer_json key (some value) = one_entry key (written (py.compact value))

  answer_of : Journal → Option (Option Value)
  answer_of absent = some none
  answer_of (written s) = py.parse s >>= λ v. some (some v)
  answer_of _ = none

  unfoldable pub answer_from : Journal → String → Option (Option Value)
  unfolding answer_of
  answer_from value key = journal_get value key >>= answer_of
