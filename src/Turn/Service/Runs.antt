-- ===== src/Turn/Service/Runs.antt =====
-- The runs of the turn service (runtime/src/turn/service.rs): deleting and reconciling them, driving
-- them until they settle, and settling their outcome into the thread. `failpoint::hit` is a step at
-- which the process may stop.
use shimpz_brain.Base.{
  ℕ, zero, suc, String, str_eq, Bool, true, false, not, ◌&&◌, Option, none, some, List, [], ◌∷◌,
  if◌then◌else◌, is_nil, is_some, Result, ok, err,
}
use shimpz_brain.Base as Base
use shimpz_brain.Base.Table.{lookup, put, remove}
use shimpz_brain.Json.Types.{Value, get}
use shimpz_brain.Json.{str_of}
use shimpz_brain.Conversation.{from_value}
use shimpz_brain.Errors.{BrainError, contract, state, provider}
use shimpz_brain.Errors as Errors
use shimpz_brain.Python.{Python}
use shimpz_brain.Turn.Run.{TeamRequest, TurnInput, unwrap_text, input_from_json}
use shimpz_brain.Turn.State.{Failed}
use shimpz_brain.Turn.State as State
use shimpz_brain.Turn.Prepare.Inputs.{TurnSession}
use shimpz_brain.Turn.Prepare.Resume.{Event, run_started, team_requests, pending_value}
use shimpz_brain.Turn.Rows.{Thread, or_state}
use shimpz_brain.Turn.Threads.{save, commit}
use shimpz_brain.Turn.World.{Act, pure, raise, lift, gets, modify, tick, ◌>>=◌, ◌>>◌}
use shimpz_brain.Turn.Service.Worker.{
  WorkerError, busy, Outcome, done, Driven, ended, deferred, timed, blocked, Worker, Service,
}
use shimpz_brain.Turn.Service.Worker as Holdpoint

abbrev pub cancelled_text : String
cancelled_text = "Chat turn cancelled"

pub data Settled : Type 0 where
  pending : Settled
  run_ended : Outcome → Settled

-- `Failed::from_value` of runtime/src/turn/definition.rs.
unfoldable pub failed_from : Value → Option Failed
failed_from value = Base.◌>>=◌ (get value "error") λ error. Base.◌>>=◌ (str_of error "kind") λ kind.
    if str_eq kind "contract"
    then Base.◌>>=◌ (str_of error "detail") (λ detail. some (State.Failed.contract detail))
    else if str_eq kind "provider"
    then some State.Failed.provider
    else if str_eq kind "cancelled"
    then some State.Failed.cancelled
    else none

unfoldable pub failed_error : Failed → BrainError
failed_error (State.Failed.contract detail) = contract detail
failed_error State.Failed.provider = provider
failed_error State.Failed.cancelled = Errors.cancelled cancelled_text

-- `map_err(state)`.
unfoldable pub of_worker : {A : Type 0} → Result A WorkerError → Result A BrainError
of_worker (ok a) = ok a
of_worker (err e) = err state

module _ (py : Python) (worker : Worker) where
  -- A call of the worker that changes the ledger, and one that reads it.
  unfoldable pub call :
      {A : Type 0}
      → (worker.Ledger → Result A WorkerError × worker.Ledger)
      → Act (Service worker) (Result A WorkerError)
  call f = do
    tick
    answered ← gets λ w. f w.ledger
    modify λ w. record w { ledger = answered.1 }
    pure answered.0

  unfoldable pub ask :
      {A : Type 0}
      → (worker.Ledger → Result A WorkerError)
      → Act (Service worker) (Result A WorkerError)
  ask f = do tick; gets λ w. f w.ledger

  -- A busy run is tried again while polls are left.
  unfoldable pub after_delete :
      Result (Unit {0}) WorkerError
      → Act (Service worker) (Unit {0})
      → Act (Service worker) (Unit {0})
  after_delete (ok _) retry = pure tt
  after_delete (err busy) retry = retry
  after_delete (err _) retry = raise state

  -- `delete_run`, over the polls left before its deadline.
  unfoldable pub delete_within : ℕ → String → Act (Service worker) (Unit {0})
  delete_within zero run_id = do
    deleted ← call (worker.delete run_id)
    after_delete deleted (raise state)
  delete_within (suc polls) run_id = do
    deleted ← call (worker.delete run_id)
    after_delete deleted (delete_within polls run_id)

  unfoldable pub delete_run : String → Act (Service worker) (Unit {0})
  delete_run run_id = delete_within worker.polls run_id

  unfoldable pub reconcile_open : Option String → String → Thread → Act (Service worker) Thread
  reconcile_open none thread_id thread = pure thread
  reconcile_open (some run_id) thread_id thread = do
    delete_run run_id
    tick
    save py thread_id (record thread { open_run = none })
    pure (record thread { open_run = none })

  -- `reconcile`: the thread comes back, its open run settled.
  unfoldable pub reconcile : String → Thread → Act (Service worker) Thread
  reconcile thread_id thread = reconcile_open thread.open_run thread_id thread

  unfoldable pub pending_requests : String → Act (Service worker) (List TeamRequest)
  pending_requests run_id = do
    answer ← ask (worker.pending run_id)
    requests ← lift (of_worker answer)
    lift (team_requests py requests)

  unfoldable pub started_input : List Event → Result TurnInput BrainError
  started_input (run_started journal ∷ events) = or_state (input_from_json py journal)
  started_input _ = err state

  unfoldable pub input : String → Act (Service worker) TurnInput
  input run_id = do
    answer ← ask (worker.history run_id)
    events ← lift (of_worker answer)
    lift (started_input events)

  -- What a drive answered: a timed wait is driven again, and so is a busy run while polls are left.
  unfoldable pub after_drive :
      Result Driven WorkerError
      → Act (Service worker) Settled
      → Act (Service worker) Settled
      → Act (Service worker) Settled
  after_drive (ok (ended outcome)) again retry = pure (run_ended outcome)
  after_drive (ok deferred) again retry = pure pending
  after_drive (ok timed) again retry = again
  after_drive (ok blocked) again retry = raise state
  after_drive (err busy) again retry = retry
  after_drive (err _) again retry = raise state

  -- `drive_until_settled`: `fuel` bounds the drives, `polls` the waits for a busy run.
  unfoldable pub drive_within : ℕ → ℕ → String → Act (Service worker) Settled
  drive_within zero polls run_id = raise state
  drive_within (suc fuel) zero run_id = do
    session ← gets λ w. lookup w.sessions run_id
    driven ← call (worker.drive run_id session)
    after_drive driven (drive_within fuel zero run_id) (raise state)
  drive_within (suc fuel) (suc polls) run_id = do
    session ← gets λ w. lookup w.sessions run_id
    driven ← call (worker.drive run_id session)
    after_drive driven (drive_within fuel (suc polls) run_id) (drive_within fuel polls run_id)

  -- Each drive is one of the steps that are left.
  unfoldable pub drive_until_settled : String → Act (Service worker) Settled
  drive_until_settled run_id w = drive_within (suc w.left) worker.polls run_id w

  unfoldable pub suspended : String → Act (Service worker) Value
  suspended run_id = do
    requests ← pending_requests run_id
    if is_nil requests then raise state else pure (pending_value requests)

  -- The exchange and the turn of a completed run, committed together.
  unfoldable pub commit_turn :
      String → Thread → String → List String → Value → Act (Service worker) Value
  commit_turn thread_id thread run_id answered completed = do
    messages ← lift (or_state (Base.◌>>=◌ (get completed "messages") from_value))
    turn ← lift (or_state (get completed "turn"))
    tick
    let committed = record thread { history = messages; committed_run = some run_id }
    commit py thread_id committed (record { answered = answered; turn = turn })
    tick
    reconcile thread_id committed
    pure turn

  unfoldable pub completed_turn :
      Option Failed → String → Thread → String → List String → Value → Act (Service worker) Value
  completed_turn (some failed) thread_id thread run_id answered completed = do
    reconcile thread_id thread
    raise (failed_error failed)
  completed_turn none thread_id thread run_id answered completed =
      commit_turn thread_id thread run_id answered completed

  unfoldable pub run_outcome :
      String → Thread → String → List String → Outcome → Act (Service worker) Value
  run_outcome thread_id thread run_id answered (done result) = do
    completed ← lift (or_state (unwrap_text py result "outcome"))
    completed_turn (failed_from completed) thread_id thread run_id answered completed
  run_outcome thread_id thread run_id answered Holdpoint.cancelled = do
    reconcile thread_id thread
    raise (Errors.cancelled cancelled_text)
  run_outcome thread_id thread run_id answered Holdpoint.ended_otherwise = do
    reconcile thread_id thread
    raise state

  -- `install`, the drive, and `remove` on whatever the drive answered.
  unfoldable pub drive : String → TurnSession → Act (Service worker) Settled
  drive run_id session w =
      let (driven, w') =
        drive_until_settled run_id (record w { sessions = put w.sessions run_id session }) in
      (driven, record w' { sessions = remove w'.sessions run_id })

  unfoldable pub settle_run :
      Settled → String → Thread → String → List String → Act (Service worker) Value
  settle_run pending thread_id thread run_id answered = suspended run_id
  settle_run (run_ended outcome) thread_id thread run_id answered =
      run_outcome thread_id thread run_id answered outcome

  unfoldable pub run :
      String → Thread → String → List String → TurnSession → Act (Service worker) Value
  run thread_id thread run_id answered session = do
    driven ← drive run_id session
    settle_run driven thread_id thread run_id answered
