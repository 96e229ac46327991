-- ===== src/Server/Turns.antt =====
-- runtime/src/server/turn_input.rs: the start and resume requests of a chat turn, one 422 for any
-- shape violation and then the contract checks.
pub mod Assistants
pub mod Recording
pub mod Clock
pub mod Bounds
pub mod Quoted
pub mod Wellformed
use Prim.Native.String.{count, len}
use shimpz_brain.Base.{
  ℕ, zero, suc, ◌+◌, ◌*◌, ◌-◌, ◌%◌, ◌≤◌, String, Char, code, str_eq, Bool, true, false, not, ◌&&◌,
  ◌||◌, Option, none, some, List, [], ◌∷◌, ◌++◌, map, leb, ltb, any, all, length, is_nil, is_empty,
  is_some, ◌==◌, if◌then◌else◌, collect, Result, ok, err,
}
use shimpz_brain.Base as Base
use shimpz_brain.Base.Results.{◌>>=◌}
use shimpz_brain.Base.Sort.{sort_by}
use shimpz_brain.Json.Types.{Value, null, bool, str, arr, obj, pairs, get}
use shimpz_brain.Json.{array, contains, str_of, as_array}
use shimpz_brain.Errors.{BrainError, contract}
use shimpz_brain.Text.{admitted}
use shimpz_brain.Attachments.Admission.{admit, distinct}
use shimpz_brain.Attachments.Types.{Attachment, kinds, commitment}
use shimpz_brain.Turn.Context.{AssistantDefinition, Memory, TurnContext}
use shimpz_brain.Turn.Prepare.Inputs.{
  ConversationEntry, TurnRequest, StartRequest, ResumeRequest, ProviderConfig,
}
use shimpz_brain.Server.Input.{
  RouteError, invalid, brain, refuse, usize_max, between, require, or_invalid, closed, string,
  optional_string, boolean, list, optional_list, object_of, optional_object, provider_any, provider,
}
use Assistants.{Front, each, assistant, assistant_shape}
use Clock.{default_zone, clock_in}
use Recording.{admit_context}

abbrev pub max_message_chars : ℕ
max_message_chars = 65536

abbrev pub max_chat_assistants : ℕ
max_chat_assistants = 16

abbrev pub max_chat_files : ℕ
max_chat_files = 8

abbrev pub max_conversation_entries : ℕ
max_conversation_entries = 8

abbrev pub max_conversation_text_chars : ℕ
max_conversation_text_chars = 512

abbrev pub max_conversation_chars : ℕ
max_conversation_chars = 4096

abbrev pub max_action_requests : ℕ
max_action_requests = 64

abbrev pub chat_locales : List String
chat_locales = "ar" ∷ "de" ∷ "en" ∷ "es" ∷ "fr" ∷ "ja" ∷ "pt" ∷ "zh" ∷ []

abbrev pub context_fields : List String
context_fields =
    "thread_id" ∷ "team_name" ∷ "assistants" ∷ "provider" ∷ "memories" ∷ "routines"
    ∷ "routine_question" ∷ "routine_mode" ∷ "routine_rerun" ∷ "routine_schedule" ∷ "routine_output"
    ∷ "routine_settings_answer" ∷ "routine_selected" ∷ "attachments" ∷ "browser_available" ∷ []

unfoldable pub locale_in : Option Value → Result (Option String) RouteError
locale_in (some null) = ok none
locale_in (some (str words)) = if contains chat_locales words then ok (some words) else err invalid
locale_in _ = err invalid

abbrev pub entry_fields : List String
entry_fields = "role" ∷ "text" ∷ "truncated" ∷ []

unfoldable pub entry_shape : Value → Result ConversationEntry RouteError
entry_shape entry = do
  _ ← closed entry entry_fields entry_fields
  role ← string entry "role" 0 usize_max
  _ ← require (str_eq role "user" || str_eq role "assistant")
  words ← string entry "text" 1 max_conversation_text_chars
  truncated ← boolean entry "truncated"
  ok (record { role = role; text = words; truncated = truncated })

unfoldable pub conversation_shape : Value → Result (List ConversationEntry) RouteError
conversation_shape body = do
  entries ← list body "conversation" 0 max_conversation_entries
  each entry_shape entries

-- `iter().sum()` of the entries' lengths.
abbrev pub entry_chars : List ConversationEntry → ℕ
entry_chars [] = 0
entry_chars (entry ∷ entries) = count entry.text + entry_chars entries

pub record Shape : Type 0 where
  pub assistants : List Value
  pub memories : Option (List Value)
  pub routines : Option (List Value)
  pub rerun : Option (List Value)
  pub attachments : List Value

abbrev pub is_object : Value → Bool
is_object (obj ms) = true
is_object _ = false

abbrev pub items_of : Option (List Value) → List Value
items_of none = []
items_of (some items) = items

-- What `build` reads of the body into the context.
pub record Fields : Type 0 where
  pub thread_id : String
  pub team_name : String
  pub question : Option Value
  pub mode : Bool
  pub schedule : Option Value
  pub output : Option String
  pub settings : Bool
  pub selected : Option Value
  pub browser : Bool

unfoldable pub read_fields : Value → Result Fields RouteError
read_fields body = do
  thread_id ← string body "thread_id" 1 256
  team_name ← string body "team_name" 0 usize_max
  question ← optional_object body "routine_question"
  mode ← boolean body "routine_mode"
  schedule ← optional_object body "routine_schedule"
  output ← optional_string body "routine_output" 0 usize_max
  settings ← boolean body "routine_settings_answer"
  selected ← optional_object body "routine_selected"
  browser ← boolean body "browser_available"
  ok (record {
    thread_id = thread_id;
    team_name = team_name;
    question = question;
    mode = mode;
    schedule = schedule;
    output = output;
    settings = settings;
    selected = selected;
    browser = browser;
  })

module _ (front : Front) where
  unfoldable pub admit_conversation :
      List ConversationEntry → Result (List ConversationEntry) RouteError
  admit_conversation entries =
      if any
          (λ (entry : ConversationEntry).
            not (admitted front.py entry.text max_conversation_text_chars false true))
          entries
        || ltb max_conversation_chars (entry_chars entries)
      then refuse "invalid conversation window"
      else ok entries

  unfoldable pub context_shape : Value → Result Shape RouteError
  context_shape body = do
    _ ← string body "thread_id" 1 256
    _ ← require (front.team_name (Base.unwrap_or (get body "team_name") null))
    assistants ← list body "assistants" 0 max_chat_assistants
    _ ← each assistant_shape assistants
    _ ← provider_any body
    memories ← optional_list body "memories" 32
    routines ← optional_list body "routines" 8
    rerun ← optional_list body "routine_rerun" 256
    _ ← require (all is_object (items_of memories ++ (items_of routines ++ items_of rerun)))
    _ ← optional_object body "routine_question"
    _ ← optional_object body "routine_schedule"
    _ ← optional_object body "routine_selected"
    _ ← optional_string body "routine_output" 0 usize_max
    _ ← boolean body "routine_mode"
    _ ← boolean body "routine_settings_answer"
    _ ← boolean body "browser_available"
    attachments ← list body "attachments" 0 max_chat_files
    _ ← require (all is_object attachments)
    ok (record {
      assistants = assistants;
      memories = memories;
      routines = routines;
      rerun = rerun;
      attachments = attachments;
    })

  memory_of : Value → Option Memory
  memory_of entry = Base.◌>>=◌ (str_of entry "topic") λ topic.
      Base.◌>>=◌ (str_of entry "preference")
        λ preference. some (record { topic = topic; preference = preference })

  -- `canonical` of runtime/src/tools/memory.rs.
  unfoldable pub canonical_memories : Value → Option (List Memory)
  unfolding memory_of
  canonical_memories value =
      Base.◌>>=◌ (front.memory value)
        λ known. Base.◌>>=◌ (as_array known) λ items. collect memory_of items

  unfoldable pub memories_in : Option (List Value) → Result (Option (List Memory)) RouteError
  memories_in none = ok none
  memories_in (some items) = elim (canonical_memories (array items)) [
    | none ↦ refuse "invalid memory"
    | some memories ↦ ok (some memories)
  ]

  -- `?` on a `BrainError`.
  abbrev pub of_brain : {A : Type 0} → Result A BrainError → Result A RouteError
  of_brain (ok a) = ok a
  of_brain (err e) = err (brain e)

  abbrev pub attached : {A : Type 0} → Result A BrainError → Result A RouteError
  attached (ok a) = ok a
  attached (err e) = refuse "invalid attachments"

  unfoldable pub admit_turn : TurnContext → Result TurnContext RouteError
  admit_turn context = do
    _ ← if front.safe_id context.thread_id then ok tt else refuse "invalid conversation thread"
    _ ←
        if ltb max_chat_assistants (length context.assistants)
        then refuse "a turn may name at most 16 Assistants"
        else ok tt
    if distinct (map (λ (a : AssistantDefinition). a.id) context.assistants)
        then ok (record context {
          assistants = sort_by (λ (a : AssistantDefinition). a.id) context.assistants;
        })
        else refuse "duplicate Assistant id"

  unfoldable pub context_of :
      Shape
      → List AssistantDefinition
      → ProviderConfig
      → Option (List Memory)
      → List Attachment
      → Fields
      → TurnContext
  context_of shape assistants config memories attachments fields = record {
    thread_id = fields.thread_id;
    team_name = fields.team_name;
    assistants = assistants;
    provider = config.provider;
    model = config.model;
    turn_date = front.today;
    timezone = default_zone;
    memories = memories;
    routines = shape.routines;
    routine_question = fields.question;
    routine_mode = fields.mode;
    routine_rerun = shape.rerun;
    routine_schedule = fields.schedule;
    routine_output = fields.output;
    routine_settings_answer = fields.settings;
    routine_selected = fields.selected;
    locale = none;
    turn_message_id = none;
    attachments = record {
      kinds = kinds attachments;
      commitment = commitment front.rules.canonical front.sha256 attachments;
      charge = 0;
    };
    browser = fields.browser;
  }

  unfoldable pub build : Value → Shape → Result TurnRequest RouteError
  build body shape = do
    assistants ← each (assistant front) shape.assistants
    config ← provider front.catalog body
    memories ← memories_in shape.memories
    attachments ← attached (admit front.py front.rules (array shape.attachments))
    fields ← read_fields body
    let context = context_of shape assistants config memories attachments fields
    _ ← of_brain (admit_context front context)
    turn ← admit_turn context
    ok (record { context = turn; provider = config; attachments = attachments })

  abbrev pub at_clock : Option (String × String) → TurnContext → TurnContext
  at_clock none context = context
  at_clock (some (date, zone)) context = record context { turn_date = date; timezone = zone }

  unfoldable pub start : Value → Result StartRequest RouteError
  start body = do
    _ ←
        closed body (context_fields ++ ("message" ∷ "locale" ∷ "turn_clock" ∷ "conversation" ∷ []))
          (context_fields ++ ("message" ∷ "locale" ∷ "conversation" ∷ []))
    message ← string body "message" 1 max_message_chars
    locale ← locale_in (get body "locale")
    clock ← clock_in front (get body "turn_clock")
    shown ← conversation_shape body
    shape ← context_shape body
    turn ← build body shape
    let dated = record turn { context = at_clock clock (record turn.context { locale = locale }) }
    _ ← if is_empty (front.py.strip message) then refuse "invalid chat message" else ok tt
    conversation ← admit_conversation shown
    ok (record { turn = dated; message = message; conversation = conversation })

  unfoldable pub results_in : Value → Result (List (String × Value)) RouteError
  results_in (obj ms) =
      if is_nil (pairs ms) || ltb max_action_requests (length (pairs ms))
      then err invalid
      else ok (pairs ms)
  results_in _ = err invalid

  unfoldable pub resume : Value → Result ResumeRequest RouteError
  resume body = do
    _ ← closed body (context_fields ++ ("results" ∷ [])) (context_fields ++ ("results" ∷ []))
    found ← object_of body "results"
    results ← results_in found
    shape ← context_shape body
    turn ← build body shape
    if any (λ (r : String × Value). is_empty r.0) results
        then refuse "invalid Action resume results"
        else ok (record { turn = turn; results = results })
