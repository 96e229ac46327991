-- ===== src/Examples/Requests.antt =====
-- The theorems on a request's admission, at concrete values.
use Prim.Native.Nat.{min}
use shimpz_brain.Base.{◌+◌, ◌≡◌, refl, String, true, false, none, some, List, [], ◌∷◌, ◌++◌, ok}
use shimpz_brain.Json.Types.{Value, null, bool}
use shimpz_brain.Json.{object, array, text}
use shimpz_brain.Turn.Context.{AssistantDefinition, open_ai}
use shimpz_brain.Turn.Prepare.Inputs.{TurnRequest, StartRequest, ResumeRequest}
use shimpz_brain.Server.Turns.{start, resume}
use shimpz_brain.Server.Turns.Wellformed.{IsStart, IsResume, start-IsStart, resume-IsResume}
use shimpz_brain.Server.Turns.Assistants.{Front, schema_nodes, assistant}
use shimpz_brain.Server.Turns.Assistants.Nodes.{nodes, schema_nodes-nodes}
use shimpz_brain.Examples.{py, digest, context}
use shimpz_brain.Examples.Service.{rules}

abbrev front : Front
front = record {
  py = py;
  rules = rules;
  sha256 = digest;
  catalog = record { id = "openai"; models = record { id = "model"; chat = true } ∷ [] } ∷ [];
  today = "2026-01-01";
  team_name = λ v. true;
  assistant_id = λ s. true;
  action_id = λ s. true;
  timezone = λ s. true;
  safe_id = λ s. true;
  memory = λ v. some v;
  schema_refusal = λ v. none;
  routine_listings = λ v. true;
  selected_routine = λ v. some v;
  py_eq = λ a b. true;
  question = λ v. true;
  rerun = λ v. true;
  schedule = λ v. true;
  output_modes = [];
  settings_codes = [];
}

abbrev schema : Value
schema = object (("type", text "object") ∷ ("properties", object (("file", null) ∷ [])) ∷ [])

abbrev action_named : String → Value
action_named id = object (
    ("id", text id)
    ∷ ("summary", text "Reads.")
    ∷ ("input_schema", schema)
    ∷ ("output_schema", object [])
    ∷ ("authorization", bool false)
    ∷ ("input_files", array (text "file" ∷ []))
    ∷ [])

abbrev sent : Value
sent = object (
    ("id", text "mail")
    ∷ ("genesis", text "Reads mail.")
    ∷ ("actions", array (action_named "read" ∷ action_named "list" ∷ []))
    ∷ [])

abbrev known : AssistantDefinition
known = record {
  id = "mail";
  genesis = "Reads mail.";
  actions =
      record {
        id = "list";
        summary = "Reads.";
        input_schema = schema;
        output_schema = object [];
        authorization = false;
        input_files = "file" ∷ [];
      }
      ∷ record {
        id = "read";
        summary = "Reads.";
        input_schema = schema;
        output_schema = object [];
        authorization = false;
        input_files = "file" ∷ [];
      }
      ∷ [];
}

schema_nodes-nodes_example : schema_nodes schema 2 ≡ min (nodes schema) (2 + 1)
schema_nodes-nodes_example = schema_nodes-nodes schema 2

abbrev greeting : Value
greeting = object (("role", text "user") ∷ ("text", text "Hello") ∷ ("truncated", bool false) ∷ [])

abbrev chat : Value
chat = object (
    ("provider", text "openai")
    ∷ ("model", text "model")
    ∷ ("api_key", text "0123456789abcdef")
    ∷ [])

abbrev shared : List (String × Value)
shared =
    ("thread_id", text "thread")
    ∷ ("team_name", text "Team")
    ∷ ("assistants", array (sent ∷ []))
    ∷ ("provider", chat)
    ∷ ("memories", null)
    ∷ ("routines", null)
    ∷ ("routine_question", null)
    ∷ ("routine_mode", bool false)
    ∷ ("routine_rerun", null)
    ∷ ("routine_schedule", null)
    ∷ ("routine_output", null)
    ∷ ("routine_settings_answer", bool false)
    ∷ ("routine_selected", null)
    ∷ ("attachments", array [])
    ∷ ("browser_available", bool true)
    ∷ []

abbrev body : Value
body = object (
    shared
    ++ ("message", text "Read my mail.")
      ∷ ("locale", text "en")
      ∷ ("conversation", array (greeting ∷ []))
      ∷ [])

abbrev resume_body : Value
resume_body = object (shared ++ ("results", object (("b1", bool true) ∷ [])) ∷ [])

abbrev admitted_turn : TurnRequest
admitted_turn = record {
  context = record context {
    assistants = known ∷ [];
    locale = some "en";
    attachments = record { kinds = []; commitment = "ab"; charge = 0 };
  };
  provider = record { provider = open_ai; model = "model"; api_key = "0123456789abcdef" };
  attachments = [];
}

abbrev admitted_start : StartRequest
admitted_start = record {
  turn = admitted_turn;
  message = "Read my mail.";
  conversation = record { role = "user"; text = "Hello"; truncated = false } ∷ [];
}

abbrev admitted_resume : ResumeRequest
admitted_resume = record {
  turn = record admitted_turn { context = record admitted_turn.context { locale = none } };
  results = ("b1", bool true) ∷ [];
}

admits_body : start front body ≡ ok admitted_start
unfolding start shimpz_brain.Server.Input.closed object shimpz_brain.Server.Input.string
    shimpz_brain.Server.Input.string_in shimpz_brain.Json.Types.get text
    shimpz_brain.Server.Turns.locale_in shimpz_brain.Server.Turns.Clock.clock_in
    shimpz_brain.Server.Turns.conversation_shape shimpz_brain.Server.Input.list
    shimpz_brain.Server.Input.list_in array shimpz_brain.Server.Turns.Assistants.each
    shimpz_brain.Server.Turns.entry_shape shimpz_brain.Server.Input.boolean
    shimpz_brain.Server.Input.boolean_in shimpz_brain.Server.Turns.context_shape
    shimpz_brain.Server.Turns.Assistants.assistant_shape
    shimpz_brain.Server.Turns.Assistants.action_shape shimpz_brain.Server.Input.object_of
    shimpz_brain.Server.Input.object_in shimpz_brain.Server.Input.provider_any
    shimpz_brain.Server.Input.provider_in shimpz_brain.Server.Input.or_invalid
    shimpz_brain.Turn.Context.provider_parse shimpz_brain.Server.Input.optional_list
    shimpz_brain.Server.Input.optional_list_in shimpz_brain.Server.Input.optional_object
    shimpz_brain.Server.Input.optional_object_in shimpz_brain.Server.Input.optional_string
    shimpz_brain.Server.Input.optional_string_in shimpz_brain.Server.Turns.build assistant
    shimpz_brain.Text.printable_with_layout shimpz_brain.Server.Turns.Assistants.action
    shimpz_brain.Server.Turns.Assistants.schema_admitted shimpz_brain.Json.as_str
    shimpz_brain.Server.Turns.Assistants.actions_admitted
    shimpz_brain.Attachments.Admission.distinct shimpz_brain.Server.Turns.Assistants.schemas_fit
    schema_nodes shimpz_brain.Server.Turns.Assistants.count_nodes shimpz_brain.Server.Input.provider
    shimpz_brain.Server.Input.is_chat_model shimpz_brain.Turn.Context.provider_as_str
    shimpz_brain.Server.Turns.memories_in shimpz_brain.Attachments.Admission.admit
    shimpz_brain.Attachments.Admission.admitted shimpz_brain.Attachments.Admission.attachment
    shimpz_brain.Attachments.Admission.bytes_start shimpz_brain.Attachments.Admission.content
    shimpz_brain.Attachments.Admission.edge shimpz_brain.Attachments.Admission.image
    shimpz_brain.Attachments.Admission.magic_of
    shimpz_brain.Attachments.Admission.media_type_admitted
    shimpz_brain.Attachments.Admission.name_admitted shimpz_brain.Attachments.Admission.opaque_item
    shimpz_brain.Attachments.Admission.size_of shimpz_brain.Attachments.Admission.text_admitted
    shimpz_brain.Attachments.Admission.text_item shimpz_brain.Attachments.Admission.text_of
    shimpz_brain.Attachments.Admission.within_message shimpz_brain.Attachments.Types.commitment
    shimpz_brain.Attachments.Types.content_value shimpz_brain.Attachments.Types.is_image
    shimpz_brain.Attachments.Types.item_value shimpz_brain.Attachments.Types.kind
    shimpz_brain.Attachments.Types.kinds shimpz_brain.Attachments.Types.wire
    shimpz_brain.Base.Sort.insert_by shimpz_brain.Base.Sort.sort_by shimpz_brain.Base.Sort.str_leb
    shimpz_brain.Json.as_array shimpz_brain.Json.as_bool shimpz_brain.Json.as_u64
    shimpz_brain.Json.bool_of shimpz_brain.Json.decimal shimpz_brain.Json.has_exactly
    shimpz_brain.Json.int shimpz_brain.Json.members shimpz_brain.Json.str_of
    shimpz_brain.Json.u64_of shimpz_brain.Json.uint
    shimpz_brain.Server.Turns.Recording.admit_context shimpz_brain.Server.Turns.Recording.code_is
    shimpz_brain.Server.Turns.Recording.fields_admitted shimpz_brain.Server.Turns.Recording.listed
    shimpz_brain.Server.Turns.Recording.recording_admitted
    shimpz_brain.Server.Turns.Recording.same_member shimpz_brain.Server.Turns.Recording.sent_with
    shimpz_brain.Server.Turns.Recording.settled shimpz_brain.Server.Turns.admit_conversation
    shimpz_brain.Server.Turns.admit_turn shimpz_brain.Server.Turns.canonical_memories
    shimpz_brain.Server.Turns.context_of shimpz_brain.Server.Turns.Clock.date_shaped
    shimpz_brain.Server.Turns.Clock.days_of shimpz_brain.Server.Turns.Clock.leap
    shimpz_brain.Server.Turns.Clock.number_from shimpz_brain.Server.Turns.read_fields
    shimpz_brain.Server.Turns.Clock.valid_date shimpz_brain.Server.Turns.Clock.valid_zone
    shimpz_brain.Text.admitted shimpz_brain.Text.hex shimpz_brain.Turn.Context.carries_any
admits_body = refl

start-IsStart_example : IsStart front admitted_start
start-IsStart_example = start-IsStart front body admitted_start admits_body

admits_resume : resume front resume_body ≡ ok admitted_resume
unfolding resume shimpz_brain.Server.Input.closed object shimpz_brain.Server.Input.string
    shimpz_brain.Server.Input.string_in shimpz_brain.Json.Types.get text
    shimpz_brain.Server.Turns.locale_in shimpz_brain.Server.Turns.Clock.clock_in
    shimpz_brain.Server.Turns.conversation_shape shimpz_brain.Server.Input.list
    shimpz_brain.Server.Input.list_in array shimpz_brain.Server.Turns.Assistants.each
    shimpz_brain.Server.Turns.entry_shape shimpz_brain.Server.Input.boolean
    shimpz_brain.Server.Input.boolean_in shimpz_brain.Server.Turns.context_shape
    shimpz_brain.Server.Turns.Assistants.assistant_shape
    shimpz_brain.Server.Turns.Assistants.action_shape shimpz_brain.Server.Input.object_of
    shimpz_brain.Server.Input.object_in shimpz_brain.Server.Input.provider_any
    shimpz_brain.Server.Input.provider_in shimpz_brain.Server.Input.or_invalid
    shimpz_brain.Turn.Context.provider_parse shimpz_brain.Server.Input.optional_list
    shimpz_brain.Server.Input.optional_list_in shimpz_brain.Server.Input.optional_object
    shimpz_brain.Server.Input.optional_object_in shimpz_brain.Server.Input.optional_string
    shimpz_brain.Server.Input.optional_string_in shimpz_brain.Server.Turns.build assistant
    shimpz_brain.Text.printable_with_layout shimpz_brain.Server.Turns.Assistants.action
    shimpz_brain.Server.Turns.Assistants.schema_admitted shimpz_brain.Json.as_str
    shimpz_brain.Server.Turns.Assistants.actions_admitted
    shimpz_brain.Attachments.Admission.distinct shimpz_brain.Server.Turns.Assistants.schemas_fit
    schema_nodes shimpz_brain.Server.Turns.Assistants.count_nodes shimpz_brain.Server.Input.provider
    shimpz_brain.Server.Input.is_chat_model shimpz_brain.Turn.Context.provider_as_str
    shimpz_brain.Server.Turns.memories_in shimpz_brain.Attachments.Admission.admit
    shimpz_brain.Attachments.Admission.admitted shimpz_brain.Attachments.Admission.attachment
    shimpz_brain.Attachments.Admission.bytes_start shimpz_brain.Attachments.Admission.content
    shimpz_brain.Attachments.Admission.edge shimpz_brain.Attachments.Admission.image
    shimpz_brain.Attachments.Admission.magic_of
    shimpz_brain.Attachments.Admission.media_type_admitted
    shimpz_brain.Attachments.Admission.name_admitted shimpz_brain.Attachments.Admission.opaque_item
    shimpz_brain.Attachments.Admission.size_of shimpz_brain.Attachments.Admission.text_admitted
    shimpz_brain.Attachments.Admission.text_item shimpz_brain.Attachments.Admission.text_of
    shimpz_brain.Attachments.Admission.within_message shimpz_brain.Attachments.Types.commitment
    shimpz_brain.Attachments.Types.content_value shimpz_brain.Attachments.Types.is_image
    shimpz_brain.Attachments.Types.item_value shimpz_brain.Attachments.Types.kind
    shimpz_brain.Attachments.Types.kinds shimpz_brain.Attachments.Types.wire
    shimpz_brain.Base.Sort.insert_by shimpz_brain.Base.Sort.sort_by shimpz_brain.Base.Sort.str_leb
    shimpz_brain.Json.as_array shimpz_brain.Json.as_bool shimpz_brain.Json.as_u64
    shimpz_brain.Json.bool_of shimpz_brain.Json.decimal shimpz_brain.Json.has_exactly
    shimpz_brain.Json.int shimpz_brain.Json.members shimpz_brain.Json.str_of
    shimpz_brain.Json.u64_of shimpz_brain.Json.uint
    shimpz_brain.Server.Turns.Recording.admit_context shimpz_brain.Server.Turns.Recording.code_is
    shimpz_brain.Server.Turns.Recording.fields_admitted shimpz_brain.Server.Turns.Recording.listed
    shimpz_brain.Server.Turns.Recording.recording_admitted
    shimpz_brain.Server.Turns.Recording.same_member shimpz_brain.Server.Turns.Recording.sent_with
    shimpz_brain.Server.Turns.Recording.settled shimpz_brain.Server.Turns.admit_conversation
    shimpz_brain.Server.Turns.admit_turn shimpz_brain.Server.Turns.canonical_memories
    shimpz_brain.Server.Turns.context_of shimpz_brain.Server.Turns.Clock.date_shaped
    shimpz_brain.Server.Turns.Clock.days_of shimpz_brain.Server.Turns.Clock.leap
    shimpz_brain.Server.Turns.Clock.number_from shimpz_brain.Server.Turns.read_fields
    shimpz_brain.Server.Turns.Clock.valid_date shimpz_brain.Server.Turns.Clock.valid_zone
    shimpz_brain.Text.admitted shimpz_brain.Text.hex shimpz_brain.Turn.Context.carries_any
    shimpz_brain.Server.Turns.results_in
admits_resume = refl

resume-IsResume_example : IsResume front admitted_resume
resume-IsResume_example = resume-IsResume front resume_body admitted_resume admits_resume
