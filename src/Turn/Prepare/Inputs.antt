-- ===== src/Turn/Prepare/Inputs.antt =====
-- The requests of a turn (runtime/src/server/turn_input.rs), the session a request lends its run
-- (runtime/src/turn/host.rs), and what the preparation takes from elsewhere.
use shimpz_brain.Base.{ℕ, String, Bool, List}
use shimpz_brain.Json.Types.{Value}
use shimpz_brain.Python.{Python}
use shimpz_brain.Attachments.Types.{Attachment}
use shimpz_brain.Attachments.Admission.{Rules}
use shimpz_brain.Turn.Context.{ProviderId, TurnContext}
use shimpz_brain.Turn.Run.{ToolSpec}

-- `ProviderConfig` of runtime/src/provider/mod.rs.
pub record ProviderConfig : Type 0 where
  pub provider : ProviderId
  pub model : String
  pub api_key : String

pub record ConversationEntry : Type 0 where
  pub role : String
  pub text : String
  pub truncated : Bool

pub record TurnRequest : Type 0 where
  pub context : TurnContext
  pub provider : ProviderConfig
  pub attachments : List Attachment

pub record StartRequest : Type 0 where
  pub turn : TurnRequest
  pub message : String
  pub conversation : List ConversationEntry

pub record ResumeRequest : Type 0 where
  pub turn : TurnRequest
  pub results : List (String × Value)

-- `TurnSession`, less its cancellation scope.
pub record TurnSession : Type 0 where
  pub provider : ProviderConfig
  pub attachments : List Attachment

-- The prompt, the tool specifications and the digests that a preparation is given.
pub record Workshop : Type 0 where
  pub py : Python
  pub rules : Rules
  pub sha256 : String → List ℕ  -- `Sha256::digest` of a text
  pub contract_text : Value → String  -- `dumps` with ASCII, sorted keys, compact
  pub system_prompt : TurnContext → String
  pub parameters : Value → Value  -- `wire::parameters`
  pub clarification_spec : ToolSpec
  pub browser_spec : ToolSpec
  pub browser_summary : Value  -- `summary_schema`
  pub memory_spec : ToolSpec
  pub routine_spec : Bool → ToolSpec
