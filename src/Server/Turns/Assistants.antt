-- ===== src/Server/Turns/Assistants.antt =====
-- The Assistants of a turn request: `assistant_shape`, `assistant`, `action` and `schema_nodes` of
-- runtime/src/server/turn_input.rs. `Front` holds what the admission takes from Team's protocol,
-- the action-schema crate, the packaged catalog and the clock.
pub mod Nodes
pub mod Sorted
pub mod Bounds
use Prim.Native.Nat.{min}
use Prim.Native.String.{count}
use shimpz_brain.Base.{
  ℕ, ◌+◌, ◌-◌, String, str_eq, Bool, true, false, not, ◌&&◌, Option, none, some, List, [], ◌∷◌, map,
  ltb, all, filter_map, concat, is_empty, is_some, if◌then◌else◌, Result, ok, err,
}
use shimpz_brain.Base as Base
use shimpz_brain.Base.Results.{◌>>=◌}
use shimpz_brain.Base.Sort.{sort_by}
use shimpz_brain.Json.Types.{
  Value, Values, Members, null, bool, num, str, arr, obj, nil, cons, end, member, get,
}
use shimpz_brain.Json.{as_str}
use shimpz_brain.Python.{Python}
use shimpz_brain.Text.{printable_with_layout}
use Prim.Native.String.{◌++◌ as str_append}
use shimpz_brain.Attachments.Admission.{Rules, distinct}
use shimpz_brain.Turn.Context.{ActionDefinition, AssistantDefinition}
use shimpz_brain.Server.Input.{
  RouteError, refuse, require, between, closed, string, boolean, list, object_of, CatalogProvider,
}

pub record Front : Type 0 where
  pub py : Python
  pub rules : Rules
  pub sha256 : String → List ℕ
  pub catalog : List CatalogProvider
  pub today : String
  pub team_name : Value → Bool  -- `canonical_team_name(..).is_some()`
  pub assistant_id : String → Bool  -- `canonical_assistant_id(..).is_some()`
  pub action_id : String → Bool  -- `canonical_action_id(..).is_some()`
  pub timezone : String → Bool  -- `canonical_timezone(..).is_some()`
  pub safe_id : String → Bool  -- `SAFE_ID_RE.is_full`
  pub memory : Value → Option Value  -- `canonical_memory`
  pub schema_refusal : Value → Option String  -- the `Err` of `action_schema::admit_schema`
  pub routine_listings : Value → Bool  -- `canonical_routine_listings(..).is_some()`
  pub selected_routine : Value → Option Value  -- `canonical_selected_routine`
  pub py_eq : Value → Value → Bool
  pub question : Value → Bool  -- `canonical_question(..).is_some()`
  pub rerun : Value → Bool  -- `canonical_rerun(..).is_some()`
  pub schedule : Value → Bool  -- `canonical_schedule(..).is_some()`
  pub output_modes : List String  -- `OUTPUT_MODES`
  pub settings_codes : List String  -- `SETTINGS_QUESTION_CODES`

abbrev pub max_genesis_chars : ℕ
max_genesis_chars = 65536

abbrev pub max_actions_per_assistant : ℕ
max_actions_per_assistant = 128

abbrev pub max_assistant_schema_nodes : ℕ
max_assistant_schema_nodes = 32768

abbrev pub max_action_summary_chars : ℕ
max_action_summary_chars = 2000

-- `map(..).collect::<Result<Vec<_>, _>>()`, and `try_for_each`.
unfoldable pub each :
    {A B : Type 0} → (A → Result B RouteError) → List A → Result (List B) RouteError
each f [] = ok []
each f (a ∷ as') = do b ← f a; bs ← each f as'; ok (b ∷ bs)

abbrev pub assistant_fields : List String
assistant_fields = "id" ∷ "genesis" ∷ "actions" ∷ []

abbrev pub action_fields : List String
action_fields =
    "id" ∷ "summary" ∷ "input_schema" ∷ "output_schema" ∷ "authorization" ∷ "input_files" ∷ []

abbrev pub is_file_name : Value → Bool
is_file_name (str name) = between 1 128 (count name)
is_file_name _ = false

unfoldable pub action_shape : Value → Result (Unit {0}) RouteError
action_shape action = do
  _ ← closed action action_fields action_fields
  _ ← string action "id" 1 128
  _ ← string action "summary" 1 max_action_summary_chars
  _ ← object_of action "input_schema"
  _ ← object_of action "output_schema"
  _ ← boolean action "authorization"
  files ← list action "input_files" 0 1
  require (all is_file_name files)

unfoldable pub assistant_shape : Value → Result (Unit {0}) RouteError
assistant_shape value = do
  _ ← closed value assistant_fields assistant_fields
  _ ← string value "id" 1 128
  _ ← string value "genesis" 1 max_genesis_chars
  actions ← list value "actions" 0 max_actions_per_assistant
  _ ← each action_shape actions
  ok tt

-- The return of `count` past the limit.
abbrev pub unless_past : ℕ → ℕ → ℕ → ℕ
unless_past limit total children = if ltb limit total then total else children

-- `count` of `schema_nodes`, over the total so far.
unfoldable mutual
  pub count_nodes : Value → ℕ → ℕ → ℕ
  count_nodes (arr vs) limit total =
      unless_past limit (total + 1) (count_items vs limit (total + 1))
  count_nodes (obj ms) limit total =
      unless_past limit (total + 1) (count_members ms limit (total + 1))
  count_nodes v limit total = total + 1

  pub count_items : Values → ℕ → ℕ → ℕ
  count_items nil limit total = total
  count_items (cons v vs) limit total = count_items vs limit (count_nodes v limit total)

  pub count_members : Members → ℕ → ℕ → ℕ
  count_members end limit total = total
  count_members (member name v ms) limit total = count_members ms limit (count_nodes v limit total)

unfoldable pub schema_nodes : Value → ℕ → ℕ
schema_nodes value limit = min (count_nodes value limit 0) (limit + 1)

abbrev pub schemas_of : List ActionDefinition → List Value
schemas_of [] = []
schemas_of (action ∷ actions) = action.input_schema ∷ action.output_schema ∷ schemas_of actions

-- The loop over the schemas, which together hold at most `remaining` values.
unfoldable pub schemas_fit : ℕ → List Value → Bool
schemas_fit remaining [] = true
schemas_fit remaining (schema ∷ schemas) =
    let nodes = schema_nodes schema remaining in
    not (ltb remaining nodes) && schemas_fit (remaining - nodes) schemas

unfoldable pub schema_admitted : Option String → String → Result (Unit {0}) RouteError
schema_admitted none kind = ok tt
schema_admitted (some refusal) kind =
    refuse (str_append "Action " (str_append kind (str_append " schema " refusal)))

module _ (front : Front) where
  unfoldable pub action : Value → Result ActionDefinition RouteError
  action value = do
    id ← string value "id" 1 128
    _ ← if front.action_id id then ok tt else refuse "invalid Action id"
    input_schema ← object_of value "input_schema"
    output_schema ← object_of value "output_schema"
    _ ← schema_admitted (front.schema_refusal input_schema) "input"
    _ ← schema_admitted (front.schema_refusal output_schema) "output"
    files ← list value "input_files" 0 1
    let input_files = filter_map as_str files
    _ ←
        if all
          (λ name.
            is_some (Base.◌>>=◌ (get input_schema "properties") λ properties. get properties name))
          input_files
        then ok tt
        else refuse "invalid Action file or authorization declaration"
    about ← string value "summary" 1 max_action_summary_chars
    _ ← if is_empty (front.py.strip about) then refuse "invalid Action summary" else ok tt
    authorization ← boolean value "authorization"
    ok (record {
      id = id;
      summary = about;
      input_schema = input_schema;
      output_schema = output_schema;
      authorization = authorization;
      input_files = input_files;
    })

  -- The checks on an Assistant's admitted Actions, which are then sorted.
  unfoldable pub actions_admitted :
      List ActionDefinition → Result (List ActionDefinition) RouteError
  actions_admitted actions =
      if not (distinct (map (λ (a : ActionDefinition). a.id) actions))
      then refuse "duplicate Action id within Assistant"
      else if not (schemas_fit max_assistant_schema_nodes (schemas_of actions))
      then refuse "Assistant Action schemas are too large"
      else ok (sort_by (λ (a : ActionDefinition). a.id) actions)

  unfoldable pub assistant : Value → Result AssistantDefinition RouteError
  assistant value = do
    id ← string value "id" 1 128
    _ ← if front.assistant_id id then ok tt else refuse "invalid Assistant id"
    genesis ← string value "genesis" 1 max_genesis_chars
    _ ←
        if str_eq (front.py.strip genesis) genesis && printable_with_layout front.py genesis
        then ok tt
        else refuse "invalid Assistant Genesis"
    items ← list value "actions" 0 max_actions_per_assistant
    actions ← each action items
    admitted ← actions_admitted actions
    ok (record { id = id; genesis = genesis; actions = admitted })
