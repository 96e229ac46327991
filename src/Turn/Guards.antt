-- ===== src/Turn/Guards.antt =====
-- The review of a model response (`Turn::review` and `Turn::apply` of runtime/src/turn/
-- definition.rs): the guards, in order, each counted as a step.
pub mod Verdicts
use shimpz_brain.Base.{
  String, Bool, true, false, Option, none, some, List, [], ◌∷◌, ◌++◌, is_some, unwrap_or, map,
  filter, if◌then◌else◌, Result, ok, err,
}
use shimpz_brain.Base.Results.{◌>>=◌}
use shimpz_brain.Conversation.{Message}
use shimpz_brain.Errors.{BrainError, Review}
use shimpz_brain.Tools.Browser
use shimpz_brain.Tools.Clarification
use shimpz_brain.Tools.Memory
use shimpz_brain.Tools.Routine
use shimpz_brain.Tools.Routine.{Verdict, pass, refuse, recording}
use shimpz_brain.Turn.Run.{ToolSpec, TurnInput}
use shimpz_brain.Turn.State.{Externals, Stop, failed, failed_of, Turn, take_steps}

pub data Guard : Type 0 where
  after_browser browser_alone rerun routine memory clarification : Guard

pub data Reviewed : Type 0 where
  run : Reviewed
  refused : String → Reviewed
  recorded : String → Reviewed

abbrev is_lax : Option Bool → Bool
is_lax (some false) = true
is_lax _ = false

-- `action_names`: the Action tools offered, which alone carry `strict: false`.
unfoldable pub action_names : TurnInput → List String
action_names input = map ToolSpec.name (filter (λ t. is_lax (ToolSpec.strict t)) input.tools)

abbrev pub when : Bool → Guard → List Guard
when true g = g ∷ []
when false g = []

-- The guards of a turn, in order: in the pass after a browser result, that one goes first.
unfoldable pub other_guards : Turn → List Guard
other_guards turn =
    when turn.input.browser browser_alone
    ++ (when (is_some turn.input.context.routine_rerun) rerun
        ++ (when turn.input.routine_tool routine
            ++ (when turn.input.memory_tool memory ++ clarification ∷ [])))

unfoldable pub guards : Turn → List Guard
guards turn = when turn.after_browser after_browser ++ other_guards turn

abbrev pub reviewed_of : Option String → Reviewed
reviewed_of none = run
reviewed_of (some correction) = refused correction

abbrev pub of_review : Review → Result Reviewed BrainError
of_review r = elim r [ ok verdict ↦ ok (reviewed_of verdict) | err e ↦ err e ]

abbrev pub of_verdict : Result Verdict BrainError → Result Reviewed BrainError
of_verdict (ok pass) = ok run
of_verdict (ok (refuse correction)) = ok (refused correction)
of_verdict (ok (recording content)) = ok (recorded content)
of_verdict (err e) = err e

module _ (ext : Externals) where
  unfoldable pub apply : Turn → Guard → Result Reviewed BrainError
  apply turn after_browser = of_review (Browser.review_after turn.messages)
  apply turn browser_alone = of_review (Browser.review_alone turn.messages)
  apply turn rerun = of_review (
      ext.routine_tool.rerun_review turn.messages (unwrap_or turn.input.context.routine_rerun [])
        (action_names turn.input))
  apply turn routine =
      of_verdict (Routine.review ext.py ext.routine_tool turn.messages turn.input.context)
  apply turn memory = of_review (Memory.review ext.py ext.team turn.messages turn.first_segment)
  apply turn clarification = of_review (
      Clarification.review ext.py ext.team turn.messages turn.first_segment
        turn.input.context.routine_mode turn.input.context.locale)

  unfoldable pub lift_failure : Result Reviewed BrainError → Result Reviewed Stop
  lift_failure (ok r) = ok r
  lift_failure (err e) = err (failed (failed_of e))

  -- The loop of `review`: the first guard that does not let the response run decides.
  unfoldable pub review_from : Turn → List Guard → Result (Reviewed × Turn) Stop
  review_from turn [] = ok (run, turn)
  review_from turn (g ∷ gs) = do
    counted ← take_steps turn 1
    let later = review_from counted gs
    verdict ← lift_failure (apply counted g)
    elim verdict [ run ↦ later | other ↦ ok (other, counted) ]

  unfoldable pub review : Turn → Result (Reviewed × Turn) Stop
  review turn = review_from turn (guards turn)
