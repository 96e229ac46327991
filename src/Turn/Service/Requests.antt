-- ===== src/Turn/Service/Requests.antt =====
-- The requests that the turn service answers (runtime/src/turn/service.rs and service/prepare.rs):
-- `resume` and `delete_thread`, each under its thread's lock.
use shimpz_brain.Base.{
  ℕ, String, str_eq, Bool, true, false, not, ◌&&◌, ◌||◌, Option, none, some, List, [], ◌∷◌, map,
  if◌then◌else◌, is_nil, Result, ok, err,
}
use shimpz_brain.Base.Sort.{sorted}
use shimpz_brain.Json.Types.{Value}
use shimpz_brain.Errors.{BrainError, contract, state}
use shimpz_brain.Turn.Run.{TeamRequest, wrap_text}
use shimpz_brain.Turn.Prepare.Inputs.{Workshop, ResumeRequest}
use shimpz_brain.Turn.Prepare.Surface.{scope_digest}
use shimpz_brain.Turn.Prepare.Resume.{
  Event, asked, last_round, applied, fresh_results, resolutions, resumed, invalid_results,
}
use shimpz_brain.Turn.Rows.{Thread, Delivery}
use shimpz_brain.Turn.Threads.{load, save, delivery, delete}
use shimpz_brain.Turn.World.{Act, pure, raise, lift, tick, ◌>>=◌, ◌>>◌}
use shimpz_brain.Turn.Service.Worker.{WorkerError, wrong_state, Outcome, Worker, Service}
use shimpz_brain.Turn.Service.Runs.{
  of_worker, call, ask, delete_run, reconcile, pending_requests, input, run_outcome, run,
}

abbrev pub no_pending : BrainError
no_pending = contract "conversation has no pending Action request"

abbrev pub scope_changed : BrainError
scope_changed = contract "Assistant scope changed during the pending turn"

-- The open run that a resume finds.
pub record Open : Type 0 where
  pub asked : List String
  pub last_round : List String
  pub pending : List TeamRequest

unfoldable pub same_texts : List String → List String → Bool
same_texts [] [] = true
same_texts (a ∷ as') (b ∷ bs) = str_eq a b && same_texts as' bs
same_texts _ _ = false

unfoldable pub names_run : Option String → String → Bool
names_run none run_id = false
names_run (some committed) run_id = str_eq committed run_id

unfoldable pub delivered_of : Option Delivery → List String → Result Value BrainError
delivered_of none answered = err no_pending
delivered_of (some kept) answered =
    if not (is_nil answered) && same_texts kept.answered answered
    then ok kept.turn
    else err no_pending

-- The interrupts that a request answers, sorted.
unfoldable pub answered_of : ResumeRequest → List String
answered_of request = sorted (map (λ r. r.0) request.results)

module _ (shop : Workshop) (worker : Worker) where
  unfoldable pub delivered : String → List String → Act (Service worker) Value
  delivered thread_id answered = do
    kept ← delivery shop.py thread_id
    lift (delivered_of kept answered)

  unfoldable pub delete_run_of : Option String → Act (Service worker) (Unit {0})
  delete_run_of none = pure tt
  delete_run_of (some run_id) = delete_run shop.py worker run_id >> tick

  unfoldable pub delete_open : Option Thread → Act (Service worker) (Unit {0})
  delete_open none = pure tt
  delete_open (some thread) = delete_run_of thread.open_run

  -- `delete_thread_locked`, which `delete_thread` runs under the thread's lock.
  unfoldable pub delete_thread : String → Act (Service worker) (Unit {0})
  delete_thread thread_id = do thread ← load shop.py thread_id; delete_open thread; delete thread_id

  unfoldable pub resolve_all : String → List (ℕ × Value) → Act (Service worker) (Unit {0})
  resolve_all run_id [] = pure tt
  resolve_all run_id ((step, result) ∷ rest) = do
    answer ← call shop.py worker (worker.resolve run_id step (wrap_text shop.py "result" result))
    lift (of_worker answer)
    resolve_all run_id rest

  -- The results that are still to be recorded, recorded; then the run goes on.
  unfoldable pub drive_on :
      String → Thread → String → Open → List String → ResumeRequest → Act (Service worker) Value
  drive_on thread_id thread run_id open_run answered request = do
    pinned ← input shop.py worker run_id
    if str_eq (scope_digest shop request.turn.context) thread.scope
        then (do
          session ← lift (resumed shop request pinned)
          fresh ← lift (fresh_results request.results open_run.pending open_run.asked)
          waiting ← ask shop.py worker (worker.pending run_id)
          requests ← lift (of_worker waiting)
          steps ← lift (resolutions shop.py requests fresh)
          resolve_all run_id steps
          tick
          run shop.py worker thread_id thread run_id answered session)
        else (do delete_thread thread_id; raise scope_changed)

  -- The outcome of a run that ended: committed now, or delivered again.
  unfoldable pub settle_ended :
      String → Thread → String → Open → List String → Outcome → Act (Service worker) Value
  settle_ended thread_id thread run_id open_run answered outcome =
      if names_run thread.committed_run run_id
      then (do reconcile shop.py worker thread_id thread; delivered thread_id answered)
      else if not (applied answered open_run.pending open_run.asked)
          || not (same_texts answered open_run.last_round)
      then raise invalid_results
      else run_outcome shop.py worker thread_id thread run_id answered outcome

  unfoldable pub go_on :
      String → Thread → String → Open → List String → ResumeRequest → Act (Service worker) Value
  go_on thread_id thread run_id open_run answered request =
      if is_nil open_run.pending && not (applied answered open_run.pending open_run.asked)
      then (do reconcile shop.py worker thread_id thread; delivered thread_id answered)
      else if is_nil open_run.pending && not (same_texts answered open_run.last_round)
      then raise invalid_results
      else drive_on thread_id thread run_id open_run answered request

  unfoldable pub after_result :
      Option Outcome
      → String
      → Thread
      → String
      → Open
      → List String
      → ResumeRequest
      → Act (Service worker) Value
  after_result (some outcome) thread_id thread run_id open_run answered request =
      settle_ended thread_id thread run_id open_run answered outcome
  after_result none thread_id thread run_id open_run answered request =
      go_on thread_id thread run_id open_run answered request

  unfoldable pub resume_open :
      String → Thread → String → Open → List String → ResumeRequest → Act (Service worker) Value
  resume_open thread_id thread run_id open_run answered request = do
    answer ← ask shop.py worker (worker.result run_id)
    outcome ← lift (of_worker answer)
    after_result outcome thread_id thread run_id open_run answered request

  abbrev pub open_of : List Event → List TeamRequest → Open
  open_of events requests = record {
    asked = asked shop.py events;
    last_round = last_round shop.py events;
    pending = requests;
  }

  -- A run that the ledger does not know is gone, and the thread lets go of it.
  unfoldable pub after_history :
      Result (List Event) WorkerError
      → String
      → Thread
      → String
      → List String
      → ResumeRequest
      → Act (Service worker) Value
  after_history (err wrong_state) thread_id thread run_id answered request = do
    save shop.py thread_id (record thread { open_run = none })
    delivered thread_id answered
  after_history (err _) thread_id thread run_id answered request = raise state
  after_history (ok events) thread_id thread run_id answered request = do
    requests ← pending_requests shop.py worker run_id
    resume_open thread_id thread run_id (open_of events requests) answered request

  unfoldable pub resume_on :
      Option String → String → Thread → List String → ResumeRequest → Act (Service worker) Value
  resume_on none thread_id thread answered request = delivered thread_id answered
  resume_on (some run_id) thread_id thread answered request = do
    answer ← ask shop.py worker (worker.history run_id)
    after_history answer thread_id thread run_id answered request

  unfoldable pub resume_thread :
      Option Thread → String → List String → ResumeRequest → Act (Service worker) Value
  resume_thread none thread_id answered request = raise no_pending
  resume_thread (some thread) thread_id answered request =
      resume_on thread.open_run thread_id thread answered request

  unfoldable pub resume : ResumeRequest → Act (Service worker) Value
  resume request = do
    let thread_id = request.turn.context.thread_id
    found ← load shop.py thread_id
    resume_thread found thread_id (answered_of request) request
