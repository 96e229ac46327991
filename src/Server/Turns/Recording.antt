-- ===== src/Server/Turns/Recording.antt =====
-- What a turn request carries of a Routine's recording: `admit_context`, `admitted`, `sent_with` and
-- `settled` of runtime/src/tools/routine.rs.
use Prim.Native.String.{◌++◌ as str_append}
use shimpz_brain.Base.{
  String, str_eq, Bool, true, false, not, ◌&&◌, ◌||◌, Option, none, some, List, [], ◌∷◌, any,
  is_some, if◌then◌else◌, Result, ok, err,
}
use shimpz_brain.Base.Results.{◌>>=◌}
use shimpz_brain.Json.Types.{Value, get}
use shimpz_brain.Json.{array, contains, str_of}
use shimpz_brain.Errors.{BrainError, contract}
use shimpz_brain.Turn.Context.{TurnContext, carries_any}
use shimpz_brain.Server.Turns.Assistants.{Front}

-- `is_some_and`.
abbrev pub some_and : {A : Type 0} → Option A → (A → Bool) → Bool
some_and none holds = false
some_and (some a) holds = holds a

abbrev pub refuse_if : Bool → String → Result (Unit {0}) BrainError
refuse_if refused detail = if refused then err (contract detail) else ok tt

unfoldable pub code_is : Option Value → String → Bool
code_is question code = some_and question λ q. some_and (str_of q "code") λ known. str_eq known code

module _ (front : Front) where
  unfoldable pub same_member : Value → Value → String → Bool
  same_member item selected key =
      some_and (get item key) λ left. some_and (get selected key) λ right. front.py_eq left right

  unfoldable pub listed : Option (List Value) → Value → Bool
  listed routines selected = some_and routines λ items.
      any (λ item. same_member item selected "routine_id" && same_member item selected "revision")
        items

  unfoldable pub sent_with : TurnContext → String → Bool
  sent_with context field =
      if str_eq field "routine_selected"
      then context.routine_mode
        && some_and context.routine_selected
            (λ value. some_and (front.selected_routine value) (listed context.routines))
      else if str_eq field "routine_question" || str_eq field "routine_schedule"
      then context.routine_mode
      else if str_eq field "routine_rerun"
      then code_is context.routine_question "routine-work-rerun"
      else true

  unfoldable pub recording_admitted : TurnContext → String → Bool
  recording_admitted context field =
      is_some context.routines
      && sent_with context field
      && (if str_eq field "routine_question"
          then some_and context.routine_question front.question
          else if str_eq field "routine_rerun"
          then some_and context.routine_rerun (λ work. front.rerun (array work))
          else if str_eq field "routine_schedule"
          then some_and context.routine_schedule front.schedule
          else if str_eq field "routine_output"
          then some_and context.routine_output (contains front.output_modes)
          else true)

  unfoldable pub settled : TurnContext → Bool
  settled context =
      if code_is context.routine_question "routine-output-unstated"
      then is_some context.routine_output
      else some_and context.routine_question
          (λ q. some_and (str_of q "code") (contains front.settings_codes))
        && is_some context.routine_schedule

  -- The loop over the recording's fields, each with its presence and its name.
  unfoldable pub fields_admitted :
      TurnContext → List (String × Bool × String) → Result (Unit {0}) BrainError
  fields_admitted context [] = ok tt
  fields_admitted context ((field, present, name) ∷ rest) =
      if present && not (recording_admitted context field)
      then err (contract (str_append "invalid Routine " name))
      else fields_admitted context rest

  unfoldable pub admit_context : TurnContext → Result (Unit {0}) BrainError
  admit_context context = do
    _ ←
        refuse_if
          (some_and context.routines (λ items.
            carries_any context.attachments || not (front.routine_listings (array items))))
          "invalid routines"
    _ ← refuse_if (context.routine_mode && not (is_some context.routines)) "invalid Routine mode"
    _ ← fields_admitted context (
        ("routine_question", is_some context.routine_question, "question")
        ∷ ("routine_rerun", is_some context.routine_rerun, "rerun")
        ∷ ("routine_schedule", is_some context.routine_schedule, "schedule")
        ∷ ("routine_output", is_some context.routine_output, "output")
        ∷ ("routine_selected", is_some context.routine_selected, "selection")
        ∷ [])
    refuse_if (context.routine_settings_answer && not (settled context))
        "invalid Routine settings answer"
