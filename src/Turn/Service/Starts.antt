-- ===== src/Turn/Service/Starts.antt =====
-- The other requests of the turn service (runtime/src/turn/service.rs and service/prepare.rs):
-- `start` and `pending_action`, each under its thread's lock.
use shimpz_brain.Base.{
  String, str_eq, Bool, true, false, not, ◌||◌, Option, none, some, [], if◌then◌else◌, is_nil, find,
  unwrap_or,
}
use shimpz_brain.Json.Types.{Value}
use shimpz_brain.Conversation.{Message, user}
use shimpz_brain.Turn.Context.{TurnContext}
use shimpz_brain.Turn.Run.{TeamRequest, action, interrupt_id, input_json, TurnInput}
use shimpz_brain.Turn.Prepare.Inputs.{Workshop, StartRequest}
use shimpz_brain.Turn.Prepare.Surface.{scope_digest}
use shimpz_brain.Turn.Prepare.Start.{Draws, context_of, prepared}
use shimpz_brain.Turn.Rows.{Thread, new_thread}
use shimpz_brain.Turn.Threads.{load, save}
use shimpz_brain.Turn.World.{Act, pure, lift, tick, ◌>>=◌, ◌>>◌}
use shimpz_brain.Turn.Service.Worker.{Worker, Service}
use shimpz_brain.Turn.Service.Requests.{delete_thread}
use shimpz_brain.Turn.Service.Runs.{of_worker, call, reconcile, pending_requests, input, run}

-- `service::pending_action`'s answer, `decisions::purpose::Pending`.
pub record PendingAction : Type 0 where
  pub message : String
  pub locale : Option String
  pub assistant_id : String
  pub action : String
  pub input : Value

text_of_user : String → Message → Bool
text_of_user id (user other words) = str_eq other id
text_of_user id _ = false

words_of : Message → String
words_of (user id words) = words
words_of _ = ""

found_action : TurnInput → Option TeamRequest → Option PendingAction
found_action pinned (some (action id assistant_id name value)) =
    elim (find (text_of_user (unwrap_or pinned.context.turn_message_id "")) pinned.messages) [
      | none ↦ none
      | some m ↦ some (record {
        message = words_of m;
        locale = pinned.context.locale;
        assistant_id = assistant_id;
        action = name;
        input = value;
      })
    ]
found_action pinned _ = none

is_action : Option TeamRequest → Bool
is_action (some (action id assistant_id name value)) = true
is_action _ = false

module _ (shop : Workshop) (worker : Worker) where
  unfoldable pub has_pending : Option String → Act (Service worker) Bool
  has_pending none = pure false
  has_pending (some run_id) = do
    requests ← pending_requests shop.py worker run_id
    pure (not (is_nil requests))

  unfoldable pub start_from : String → String → Option Thread → Act (Service worker) Thread
  start_from thread_id scope none = pure (new_thread scope)
  start_from thread_id scope (some thread) = do
    pending ← has_pending thread.open_run
    if pending || not (str_eq thread.scope scope)
        then (do delete_thread shop worker thread_id; pure (new_thread scope))
        else reconcile shop.py worker thread_id thread

  -- The thread a new turn starts from: a pending turn is abandoned with its whole thread, and a
  -- thread whose Assistant contract changed is forgotten.
  unfoldable pub thread_for_start : TurnContext → Act (Service worker) Thread
  thread_for_start context = do
    found ← load shop.py context.thread_id
    start_from context.thread_id (scope_digest shop context) found

  unfoldable pub start : StartRequest → Draws → Act (Service worker) Value
  start request draws = do
    let thread_id = request.turn.context.thread_id
    thread ← thread_for_start (context_of shop request draws)
    ready ← lift (prepared shop request draws thread)
    let opened = record ready.thread { open_run = some ready.run_id }
    save shop.py thread_id opened
    tick
    submitted ← call shop.py worker (worker.submit ready.run_id (input_json shop.py ready.input))
    lift (of_worker submitted)
    tick
    run shop.py worker thread_id opened ready.run_id [] ready.session

  unfoldable pub pending_of_run :
      Option String → String → Act (Service worker) (Option PendingAction)
  unfolding found_action text_of_user words_of is_action
  pending_of_run none interrupt = pure none
  pending_of_run (some run_id) interrupt = do
    requests ← pending_requests shop.py worker run_id
    let found = find (λ r. str_eq (interrupt_id r) interrupt) requests
    if is_action found
        then (do pinned ← input shop.py worker run_id; pure (found_action pinned found))
        else pure none

  unfoldable pub pending_of : Option Thread → String → Act (Service worker) (Option PendingAction)
  pending_of none interrupt = pure none
  pending_of (some thread) interrupt = pending_of_run thread.open_run interrupt

  -- The pending Action of an interrupt and its turn's start message.
  unfoldable pub pending_action : String → String → Act (Service worker) (Option PendingAction)
  pending_action thread_id interrupt = do
    thread ← load shop.py thread_id
    pending_of thread interrupt
