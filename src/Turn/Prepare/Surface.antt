-- ===== src/Turn/Prepare/Surface.antt =====
-- The surface that a turn offers (runtime/src/turn/service/prepare.rs): its scope digest, its tools
-- in order, its prompt and their fixed tokens.
use Prim.Native.String.{◌++◌ as str_append}
use shimpz_brain.Base.{
  ℕ, ◌+◌, ◌%◌, String, str_eq, Bool, false, not, ◌&&◌, some, List, [], ◌∷◌, ◌++◌, map, concat,
  if◌then◌else◌, Result, ok, err, is_some,
}
use shimpz_brain.Base.Results.{◌>>=◌}
use shimpz_brain.Json.Types.{Value, bool}
use shimpz_brain.Json.{object, array, text}
use shimpz_brain.Text.{hex}
use shimpz_brain.Budget.{fixed_tokens}
use shimpz_brain.Errors.{BrainError, contract}
use shimpz_brain.Attachments.Admission.{distinct}
use shimpz_brain.Attachments.Projection.{exposed}
use shimpz_brain.Tools.Action
use shimpz_brain.Tools.Browser
use shimpz_brain.Turn.Context.{
  ActionDefinition, AssistantDefinition, TurnContext, carries_any, reads_content,
}
use shimpz_brain.Turn.Run.{ToolSpec}
use shimpz_brain.Turn.Prepare.Inputs.{Workshop}

pub record Surface : Type 0 where
  pub system : String
  pub tools : List ToolSpec
  pub fixed : ℕ  -- u64
  pub memory_tool : Bool
  pub routine_tool : Bool
  pub browser : Bool

action_contract : ActionDefinition → Value
action_contract action = object (
    ("id", text action.id)
    ∷ ("summary", text action.summary)
    ∷ ("input_schema", action.input_schema)
    ∷ ("authorization", bool action.authorization)
    ∷ ("input_files", array (map text action.input_files))
    ∷ [])

assistant_contract : AssistantDefinition → Value
unfolding action_contract
assistant_contract assistant = object (
    ("id", text assistant.id)
    ∷ ("genesis", text assistant.genesis)
    ∷ ("actions", array (map action_contract assistant.actions))
    ∷ [])

unfoldable pub summary : String → String → Value → Value
summary name about schema =
    object (("name", text name) ∷ ("summary", text about) ∷ ("schema", schema) ∷ [])

-- `bool::then`, as an iterator.
abbrev pub when_offered : Bool → ToolSpec → List ToolSpec
when_offered offered tool = if offered then tool ∷ [] else []

module _ (shop : Workshop) where
  -- The digest of the exact Assistant contract.
  unfoldable pub scope_digest : TurnContext → String
  unfolding assistant_contract
  scope_digest context =
      hex (shop.sha256 (shop.contract_text (array (map assistant_contract context.assistants))))

  -- The name and the specification of an Action's tool.
  unfoldable pub action_name : AssistantDefinition → ActionDefinition → String
  action_name assistant action = Action.tool_name shop.sha256 assistant.id action.id

  unfoldable pub action_spec : AssistantDefinition → ActionDefinition → ToolSpec
  action_spec assistant action = record {
    name = action_name assistant action;
    description = str_append "Internal Assistant " (
        str_append assistant.id
          (str_append ", Action " (str_append action.id (str_append ": " action.summary))));
    schema = shop.parameters action.input_schema;
    strict = some false;
  }

  unfoldable pub action_tools : List AssistantDefinition → List ToolSpec
  action_tools exposed =
      concat (map (λ a. map (action_spec a) (AssistantDefinition.actions a)) exposed)

  action_summary : AssistantDefinition → ActionDefinition → Value
  action_summary assistant action =
      summary (action_name assistant action) action.summary action.input_schema

  unfoldable pub own_tools : TurnContext → Bool → Bool → Bool → List ToolSpec
  own_tools context browser memory_tool routine_tool =
      shop.clarification_spec
      ∷ (when_offered browser shop.browser_spec
          ++ (when_offered memory_tool shop.memory_spec
              ++ when_offered routine_tool (shop.routine_spec (is_some context.routine_selected))))

  -- The Browser counts by its declared schema.
  own_summary : ToolSpec → Value
  own_summary tool =
      summary tool.name tool.description
        (if str_eq tool.name Browser.tool_name then shop.browser_summary else tool.schema)

  -- The names, sorted, have no equal neighbours: no name stands twice.
  unfoldable pub offered_tools :
      TurnContext
      → List AssistantDefinition
      → Bool
      → Bool
      → Bool
      → Result (List ToolSpec × List Value) BrainError
  unfolding action_summary own_summary
  offered_tools context exposed browser memory_tool routine_tool =
      let own = own_tools context browser memory_tool routine_tool in
      let tools = action_tools exposed ++ own in
      let summaries =
        concat (map (λ a. map (action_summary a) (AssistantDefinition.actions a)) exposed)
        ++ map own_summary own in
      if distinct (map (λ (tool : ToolSpec). tool.name) tools)
      then ok (tools, summaries)
      else err (contract "Action tool name collision")

  unfoldable pub exposed_of : TurnContext → List AssistantDefinition
  exposed_of context =
      if context.routine_settings_answer
      then []
      else exposed context.assistants (reads_content context.attachments)

  -- The sum of the fixed tokens and the attachments' charge is a `u64`, which wraps.
  unfoldable pub surface : TurnContext → Result Surface BrainError
  surface context = do
    let shown = exposed_of context
    let memory_tool = not (carries_any context.attachments) && is_some context.memories
    let routine_tool = is_some context.routines
    let browser = Browser.offered context
    let system = shop.system_prompt (record context { assistants = shown; browser = browser })
    offered ← offered_tools context shown browser memory_tool routine_tool
    ok (record {
      system = system;
      tools = offered.0;
      fixed =
          (fixed_tokens shop.py system offered.1 + context.attachments.charge)
          % 18446744073709551616;
      memory_tool = memory_tool;
      routine_tool = routine_tool;
      browser = browser;
    })
