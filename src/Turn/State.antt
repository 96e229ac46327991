-- ===== src/Turn/State.antt =====
-- The state of a turn as its definition re-executes it, and why it stops (runtime/src/turn/
-- definition.rs and step.rs). `Externals` is what the turn takes from other crates and from the
-- Routine tool; `Host` is Holdpoint's run context.
use Prim.Native.String.{◌++◌ as str_append}
use shimpz_brain.Base.{
  ℕ, ◌+◌, ◌%◌, ◌<◌, ◌≤◌, String, Bool, true, false, List, [], ◌∷◌, ◌++◌, ltb, if◌then◌else◌, take,
  Result, ok, err, ◌≡◌,
}
use shimpz_brain.Json.Types.{Value}
use shimpz_brain.Json.{decimal, object, text}
use shimpz_brain.Conversation.{Message}
use shimpz_brain.Errors.{BrainError}
use shimpz_brain.Python.{Python}
use shimpz_brain.Team.{Team}
use shimpz_brain.Text.{hex}
use shimpz_brain.Tools.Routine.{RoutineTool}
use shimpz_brain.Turn.Run.{Journal, TurnInput}

pub record Externals : Type 0 where
  pub py : Python
  pub team : Team
  pub routine_tool : RoutineTool
  pub sha256 : String → List ℕ  -- `Sha256::digest`
  pub valid_payload : Value → Value → Bool  -- `action_schema::validate_payload(..).is_ok()`

-- `holdpoint::Interrupt` and `holdpoint::Failure`.
pub data Interrupt : Type 0 where
  suspend cancelled expired limited lost : Interrupt
  unrecoverable : String → Interrupt

pub record Failure : Type 0 where
  pub failure_code : String
  pub message : String

-- What `Ctx::model` answers.
pub data Reply (A : Type 0) : Type 0 where
  interrupted : Interrupt → Reply A
  failed : Failure → Reply A
  answered : A → Reply A

pub record Host : Type 1 where
  pub Ctx : Type 0
  pub model : Ctx → Journal → Reply Journal × Ctx
  pub deferred : Ctx → List (String × Journal) → Result (List Journal) Interrupt × Ctx
  -- The deferred batches that the run's ledger and Team still answer: finitely many.
  pub pending : Ctx → ℕ
  pub model_pending : (c : Ctx) (request : Journal) → pending (model c request).1 ≤ pending c
  pub deferred_pending :
      (c : Ctx) (requests : List (String × Journal)) (results : List Journal)
      → (deferred c requests).0 ≡ ok results
      → pending (deferred c requests).1 < pending c

pub data Failed : Type 0 where
  contract : String → Failed
  provider cancelled : Failed

pub data Stop : Type 0 where
  interrupt : Interrupt → Stop
  failed : Failed → Stop

abbrev pub recursion_limit : ℕ
recursion_limit = 12

unfoldable pub failed_of : BrainError → Failed
failed_of (BrainError.contract detail) = Failed.contract detail
failed_of (BrainError.cancelled detail) = Failed.cancelled
failed_of BrainError.provider = Failed.provider
failed_of BrainError.state = Failed.provider
failed_of (BrainError.capacity detail) = Failed.provider

-- `Failed::value`.
unfoldable pub failed_value : Failed → Value
failed_value (Failed.contract detail) =
    object (("error", object (("kind", text "contract") ∷ ("detail", text detail) ∷ [])) ∷ [])
failed_value Failed.provider =
    object (("error", object (("kind", text "provider") ∷ ("detail", text "") ∷ [])) ∷ [])
failed_value Failed.cancelled =
    object (("error", object (("kind", text "cancelled") ∷ ("detail", text "") ∷ [])) ∷ [])

pub record Turn : Type 0 where
  pub input : TurnInput
  pub messages : List Message
  pub prefix : String
  pub counter : ℕ  -- u32
  pub steps : ℕ  -- u32
  pub first_segment : Bool
  pub after_browser : Bool

abbrev pub u32 : ℕ → ℕ
u32 n = n % 4294967296

-- `Turn::new`.
unfoldable pub new : Externals → String → TurnInput → Turn
new ext run_id input = record {
  input = input;
  messages = input.messages;
  prefix = hex (take 8 (ext.sha256 run_id));
  counter = 0;
  steps = 0;
  first_segment = true;
  after_browser = false;
}

abbrev pub count_up : Turn → Turn
count_up turn = record turn { counter = u32 (turn.counter + 1) }

-- `next_id`: the id, and the turn that counts it.
unfoldable pub next_id : Turn → String → String × Turn
next_id turn kind =
    let counted = count_up turn in
    (
      str_append "brain-"
          (str_append turn.prefix (str_append "-" (str_append kind (decimal counted.counter)))),
      counted,
    )

-- `interrupt_id_next`.
unfoldable pub interrupt_id_next : Externals → Turn → String × Turn
interrupt_id_next ext turn =
    let counted = count_up turn in
    (
      hex (
          take 16
            (ext.sha256 (str_append turn.prefix (str_append ":i" (decimal counted.counter))))),
      counted,
    )

unfoldable pub take_steps : Turn → ℕ → Result Turn Stop
take_steps turn steps =
    let taken = u32 (turn.steps + steps) in
    if ltb recursion_limit taken then err (failed provider) else ok (record turn { steps = taken })

-- `self.messages.push(..)`.
abbrev pub push : Turn → Message → Turn
push turn m = record turn { messages = turn.messages ++ m ∷ [] }

-- `resumed`: a new invocation after Team's results.
unfoldable pub resumed : Turn → Bool → Turn
resumed turn browser = record turn { steps = 0; first_segment = false; after_browser = browser }
