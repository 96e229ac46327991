-- ===== src/Turn/Context.antt =====
-- runtime/src/turn/context.rs: the pinned context of a chat turn and its strict JSON form.
pub mod RoundTrip
use shimpz_brain.Base.{
  ℕ, String, str_eq, Bool, true, false, not, ◌||◌, Option, none, some, List, [], ◌∷◌, any, is_nil,
  map, collect, if◌then◌else◌, ◌>>=◌, ◌>>◌, then_some,
}
use shimpz_brain.Json.Types.{Value, null, bool, str, arr, values, get}
use shimpz_brain.Json.{object, array, text, uint, str_of, u64_of, bool_of, array_of, has_exactly}

-- `ProviderId` of runtime/src/provider/mod.rs.
pub data ProviderId : Type 0 where
  open_ai anthropic : ProviderId

unfoldable pub provider_as_str : ProviderId → String
provider_as_str open_ai = "openai"
provider_as_str anthropic = "anthropic"

unfoldable pub provider_parse : String → Option ProviderId
provider_parse id =
    if str_eq id "openai"
    then some open_ai
    else if str_eq id "anthropic"
    then some anthropic
    else none

pub record ActionDefinition : Type 0 where
  pub id : String
  pub summary : String
  pub input_schema : Value
  pub output_schema : Value
  pub authorization : Bool
  pub input_files : List String

pub record AssistantDefinition : Type 0 where
  pub id : String
  pub genesis : String
  pub actions : List ActionDefinition

pub record Memory : Type 0 where
  pub topic : String
  pub preference : String

pub record AttachmentPins : Type 0 where
  pub kinds : List String
  pub commitment : String
  pub charge : ℕ  -- u64

-- `AttachmentPins::any` and `AttachmentPins::reads_content`.
unfoldable pub carries_any : AttachmentPins → Bool
carries_any pins = not (is_nil pins.kinds)

unfoldable pub reads_content : AttachmentPins → Bool
reads_content pins = any (λ kind. str_eq kind "text" || str_eq kind "image") pins.kinds

pub record TurnContext : Type 0 where
  pub thread_id : String
  pub team_name : String
  pub assistants : List AssistantDefinition
  pub provider : ProviderId
  pub model : String
  pub turn_date : String
  pub timezone : String
  pub memories : Option (List Memory)
  pub routines : Option (List Value)
  pub routine_question : Option Value
  pub routine_mode : Bool
  pub routine_rerun : Option (List Value)
  pub routine_schedule : Option Value
  pub routine_output : Option String
  pub routine_settings_answer : Bool
  pub routine_selected : Option Value
  pub locale : Option String
  pub turn_message_id : Option String
  pub attachments : AttachmentPins
  pub browser : Bool

unfoldable pub optional : Option Value → Value
optional none = null
optional (some v) = v

unfoldable pub optional_list : Option (List Value) → Value
optional_list none = null
optional_list (some vs) = array vs

unfoldable pub optional_text : Option String → Value
optional_text none = null
optional_text (some s) = text s

unfoldable pub action_value : ActionDefinition → Value
action_value action = object (
    ("id", text action.id)
    ∷ ("summary", text action.summary)
    ∷ ("input_schema", action.input_schema)
    ∷ ("output_schema", action.output_schema)
    ∷ ("authorization", bool action.authorization)
    ∷ ("input_files", array (map text action.input_files))
    ∷ [])

unfoldable pub assistant_value : AssistantDefinition → Value
assistant_value assistant = object (
    ("id", text assistant.id)
    ∷ ("genesis", text assistant.genesis)
    ∷ ("actions", array (map action_value assistant.actions))
    ∷ [])

unfoldable pub memory_value : Memory → Value
memory_value memory =
    object (("topic", text memory.topic) ∷ ("preference", text memory.preference) ∷ [])

unfoldable pub memories_value : Option (List Memory) → Value
memories_value none = null
memories_value (some ms) = array (map memory_value ms)

-- `TurnContext::to_value`.
unfoldable pub context_value : TurnContext → Value
context_value c = object (
    ("thread_id", text c.thread_id)
    ∷ ("team_name", text c.team_name)
    ∷ ("assistants", array (map assistant_value c.assistants))
    ∷ ("provider", text (provider_as_str c.provider))
    ∷ ("model", text c.model)
    ∷ ("turn_date", text c.turn_date)
    ∷ ("timezone", text c.timezone)
    ∷ ("memories", memories_value c.memories)
    ∷ ("routines", optional_list c.routines)
    ∷ ("routine_question", optional c.routine_question)
    ∷ ("routine_mode", bool c.routine_mode)
    ∷ ("routine_rerun", optional_list c.routine_rerun)
    ∷ ("routine_schedule", optional c.routine_schedule)
    ∷ ("routine_output", optional_text c.routine_output)
    ∷ ("routine_settings_answer", bool c.routine_settings_answer)
    ∷ ("routine_selected", optional c.routine_selected)
    ∷ ("locale", optional_text c.locale)
    ∷ ("turn_message_id", optional_text c.turn_message_id)
    ∷ ("attachment_kinds", array (map text c.attachments.kinds))
    ∷ ("attachment_commitment", text c.attachments.commitment)
    ∷ ("attachment_charge", uint c.attachments.charge)
    ∷ ("browser", bool c.browser)
    ∷ [])

abbrev context_fields : List String
context_fields =
    "thread_id" ∷ "team_name" ∷ "assistants" ∷ "provider" ∷ "model" ∷ "turn_date" ∷ "timezone"
    ∷ "memories" ∷ "routines" ∷ "routine_question" ∷ "routine_mode" ∷ "routine_rerun"
    ∷ "routine_schedule" ∷ "routine_output" ∷ "routine_settings_answer" ∷ "routine_selected"
    ∷ "locale" ∷ "turn_message_id" ∷ "attachment_kinds" ∷ "attachment_commitment"
    ∷ "attachment_charge" ∷ "browser" ∷ []

-- The inner option is the member's value; `none` is the source's `Err`.
unfoldable pub read_nullable {ℓ} : {A : Type ℓ} → (Value → Option A) → Value → Option (Option A)
read_nullable read null = some none
read_nullable read v = read v >>= λ a. some (some a)

unfoldable pub nullable {ℓ} : {A : Type ℓ} → Value → String → (Value → Option A) → Option (Option A)
nullable value key read = get value key >>= read_nullable read

unfoldable pub list : Value → Option (List Value)
list (arr vs) = some (values vs)
list _ = none

unfoldable pub string : Value → Option String
string (str s) = some s
string _ = none

unfoldable pub strings : Value → Option (List String)
strings (arr vs) = collect string (values vs)
strings _ = none

abbrev action_fields : List String
action_fields =
    "id" ∷ "summary" ∷ "input_schema" ∷ "output_schema" ∷ "authorization" ∷ "input_files" ∷ []

unfoldable pub action_from : Value → Option ActionDefinition
action_from value = do
  then_some (has_exactly value action_fields)
  id ← str_of value "id"
  summary ← str_of value "summary"
  input_schema ← get value "input_schema"
  output_schema ← get value "output_schema"
  authorization ← bool_of value "authorization"
  files ← get value "input_files"
  input_files ← strings files
  some (record {
    id = id;
    summary = summary;
    input_schema = input_schema;
    output_schema = output_schema;
    authorization = authorization;
    input_files = input_files;
  })

abbrev assistant_fields : List String
assistant_fields = "id" ∷ "genesis" ∷ "actions" ∷ []

unfoldable pub assistant_from : Value → Option AssistantDefinition
assistant_from value = do
  then_some (has_exactly value assistant_fields)
  id ← str_of value "id"
  genesis ← str_of value "genesis"
  items ← array_of value "actions"
  actions ← collect action_from items
  some (record { id = id; genesis = genesis; actions = actions })

abbrev memory_fields : List String
memory_fields = "topic" ∷ "preference" ∷ []

unfoldable pub memory_from : Value → Option Memory
memory_from value = do
  then_some (has_exactly value memory_fields)
  topic ← str_of value "topic"
  preference ← str_of value "preference"
  some (record { topic = topic; preference = preference })

unfoldable pub memories_from : Value → Option (List Memory)
memories_from (arr vs) = collect memory_from (values vs)
memories_from _ = none

-- `decode::pins`.
unfoldable pub pins_from : Value → Option AttachmentPins
pins_from value = do
  items ← get value "attachment_kinds"
  kinds ← strings items
  commitment ← str_of value "attachment_commitment"
  charge ← u64_of value "attachment_charge"
  some (record { kinds = kinds; commitment = commitment; charge = charge })

-- `decode::context`.
unfoldable pub context_from : Value → Option TurnContext
context_from value = do
  then_some (has_exactly value context_fields)
  routines ← nullable value "routines" list
  routine_question ← nullable value "routine_question" some
  routine_mode ← bool_of value "routine_mode"
  routine_rerun ← nullable value "routine_rerun" list
  routine_schedule ← nullable value "routine_schedule" some
  routine_output ← nullable value "routine_output" string
  routine_settings_answer ← bool_of value "routine_settings_answer"
  routine_selected ← nullable value "routine_selected" some
  locale ← nullable value "locale" string
  turn_message_id ← nullable value "turn_message_id" string
  thread_id ← str_of value "thread_id"
  team_name ← str_of value "team_name"
  items ← array_of value "assistants"
  assistants ← collect assistant_from items
  provider_id ← str_of value "provider"
  provider ← provider_parse provider_id
  model ← str_of value "model"
  turn_date ← str_of value "turn_date"
  timezone ← str_of value "timezone"
  memories ← nullable value "memories" memories_from
  attachments ← pins_from value
  browser ← bool_of value "browser"
  some (record {
    thread_id = thread_id;
    team_name = team_name;
    assistants = assistants;
    provider = provider;
    model = model;
    turn_date = turn_date;
    timezone = timezone;
    memories = memories;
    routines = routines;
    routine_question = routine_question;
    routine_mode = routine_mode;
    routine_rerun = routine_rerun;
    routine_schedule = routine_schedule;
    routine_output = routine_output;
    routine_settings_answer = routine_settings_answer;
    routine_selected = routine_selected;
    locale = locale;
    turn_message_id = turn_message_id;
    attachments = attachments;
    browser = browser;
  })
