-- ===== src/Examples.antt =====
-- Concrete text semantics, journals and messages on which the theorems are applied.
mod Conversations
mod Guards
mod Journals
mod Turns
mod Runs
mod Proxy
mod Service
mod Attachments
mod Requests
use shimpz_brain.Base.{ℕ, String, Bool, true, false, Option, none, some, List, [], ◌∷◌, ok, err}
use shimpz_brain.Json.Types.{Value, null}
use shimpz_brain.Json.{object, text}
use shimpz_brain.Conversation.{
  ToolCall, InvalidCall, AssistantMessage, ToolMessage, Message, user, assistant, tool,
}
use shimpz_brain.Python.{Python}
use shimpz_brain.Team.{Team}
use shimpz_brain.Turn.Context.{open_ai, ActionDefinition, AssistantDefinition, TurnContext}
use shimpz_brain.Turn.Run.{TurnInput}
use shimpz_brain.Turn.State.{Externals}

-- A text semantics without case, spacing or composition, whose reader answers one value.
abbrev pub reading : Value → Python
reading v = record {
  strip = λ s. s;
  nfc = λ s. s;
  is_nfc = λ s. true;
  casefold = λ s. s;
  isprintable = λ s. true;
  isspace = λ c. false;
  category = λ c. "Ll";
  compact = λ v'. "{}";
  spaced = λ v'. "{ }";
  parse = λ s. some v;
}

abbrev pub py : Python
py = reading null

abbrev pub team : Team
team = record {
  canonical_objective = λ v. some "open example.com";
  memory_topic = λ s. true;
  unquoted = λ s. some s;
  team_asks = λ s locale. some false;
  render_clarification = λ v. "Which one?";
}

abbrev pub reply_with : String → String → List ToolCall → AssistantMessage
reply_with id words calls = record {
  id = id;
  text = words;
  calls = calls;
  invalid_calls = [];
  refusal = false;
  truncated = false;
  provider = "openai";
  raw = none;
  attempts = 1;
}

abbrev pub question : Message
question = user "u1" "What is the weather?"

abbrev pub answered : Message
answered = assistant (reply_with "a1" "Sunny." [])

abbrev pub thanks : Message
thanks = user "u2" "Thanks, and tomorrow?"

abbrev pub forecast : Message
forecast = assistant (reply_with "a2" "Rain." [])

abbrev pub history : List Message
history = question ∷ answered ∷ thanks ∷ forecast ∷ []

abbrev pub call_named : String → Value → ToolCall
call_named name arguments = record { id = "c1"; name = name; arguments = arguments }

-- A turn that offers one Action of one Assistant and the Browser.
abbrev pub list_mail : ActionDefinition
list_mail = record {
  id = "list";
  summary = "Lists mail.";
  input_schema = object [];
  output_schema = object [];
  authorization = false;
  input_files = [];
}

abbrev pub mail : AssistantDefinition
mail = record { id = "mail"; genesis = "Reads mail."; actions = list_mail ∷ [] }

abbrev pub context : TurnContext
context = record {
  thread_id = "thread";
  team_name = "Team";
  assistants = mail ∷ [];
  provider = open_ai;
  model = "model";
  turn_date = "2026-01-01";
  timezone = "UTC";
  memories = none;
  routines = none;
  routine_question = none;
  routine_mode = false;
  routine_rerun = none;
  routine_schedule = none;
  routine_output = none;
  routine_settings_answer = false;
  routine_selected = none;
  locale = none;
  turn_message_id = none;
  attachments = record { kinds = []; commitment = ""; charge = 0 };
  browser = true;
}

-- Every digest is one byte.
abbrev pub digest : String → List ℕ
digest s = 171 ∷ []

abbrev pub mail_tool : String
mail_tool = "a_mail__a_list__ab"

abbrev pub input : TurnInput
input = record {
  context = context;
  system = "You are the Brain.";
  tools =
      record {
        name = mail_tool;
        description = "Lists mail.";
        schema = object [];
        strict = some false;
      }
      ∷ record {
        name = "browser";
        description = "Browses.";
        schema = object [];
        strict = some true;
      }
      ∷ [];
  messages = question ∷ [];
  turn_start = 0;
  memory_tool = false;
  routine_tool = false;
  browser = true;
}

abbrev pub ext : Externals
ext = record {
  py = py;
  team = team;
  routine_tool = record {
    record_call = λ v c ms. err "routine";
    correction = λ field. field;
    rerun_review = λ ms vs names. ok none;
  };
  sha256 = digest;
  valid_payload = λ schema v. true;
}
