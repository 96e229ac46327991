-- ===== src/Examples/Service.antt =====
-- The theorems on the turn service, at a concrete worker and at concrete stores.
use shimpz_brain.Base.{
  ℕ, ◌+◌, ◌<◌, ◌≤◌, String, str_eq, Bool, true, false, if◌then◌else◌, Option, none, some, List, [],
  ◌∷◌, ◌≡◌, refl, arith, inl, inr, Result, ok, err,
}
use shimpz_brain.Json.Types.{Value, null, bool, num, str, arr, obj, Values, nil, cons}
use shimpz_brain.Json.{object, array, text}
use shimpz_brain.Python.{Python}
use shimpz_brain.Conversation.{Message, to_value, message_value}
use shimpz_brain.Turn.Run.{Journal, written, entries, entry, browse, browser_name}
use shimpz_brain.Turn.Run as Run
use shimpz_brain.Turn.World.{Row, World}
use shimpz_brain.Turn.Rows.{Thread}
use shimpz_brain.Attachments.Admission.{Rules}
use shimpz_brain.Turn.Prepare.Inputs.{Workshop, TurnRequest, ResumeRequest}
use shimpz_brain.Turn.Prepare.Resume.{Event, step_scheduled, deferred}
use shimpz_brain.Turn.Service.Worker.{Outcome, ended, Worker, Service}
use shimpz_brain.Turn.Service.Worker
use shimpz_brain.Turn.Service.Rules.{stores}
use shimpz_brain.Turn.Service.Steps.{Deleting, deleted}
use shimpz_brain.Turn.Service.Recovery.{Finished, Fine, Cleared}
use shimpz_brain.Turn.Service.Recovery as Recovery
use Prim.Native.Nat.{◌%◌}
use shimpz_brain.Budget.{fixed_tokens}
use shimpz_brain.Base.{All, map, filter}
use shimpz_brain.Base.Table.{lookup}
use shimpz_brain.Attachments.Admission.Bounds.{Distinct}
use shimpz_brain.Turn.Run.{ToolSpec}
use shimpz_brain.Turn.Prepare.Inputs.{StartRequest}
use shimpz_brain.Turn.Prepare.Start.{Draws}
use shimpz_brain.Turn.Prepare.Resume.{
  PendingRequest, team_requests, fresh_results, waiting, resolutions,
}
use shimpz_brain.Turn.Prepare.Fresh.{Resolves, fresh_results_resolve}
use shimpz_brain.Turn.Prepare.Surface.{Surface, summary, surface}
use shimpz_brain.Turn.Prepare.Offers.{Offered, surface-Offered}
use shimpz_brain.Turn.Service.Requests.{delete_thread}
use shimpz_brain.Turn.Service.Starts.{start, pending_action}
use shimpz_brain.Turn.Service.Sessions.{Leaves}
use shimpz_brain.Turn.Service.Lends.{requests_leave_none}
use shimpz_brain.Turn.Service.Erasure.{delete_thread_erases}
use shimpz_brain.Turn.Service.Stops.{resume_after_stops, restarted, repeated}
use shimpz_brain.Turn.Service.Requests.{resume}
use shimpz_brain.Examples.{py, question, context, digest}

abbrev pub completed : Value
completed = object (("messages", array (message_value question ∷ [])) ∷ ("turn", null) ∷ [])

abbrev pub asked_task : Value
asked_task = object (("interrupt_id", text "b1") ∷ ("objective", text "open example.com") ∷ [])

-- A semantics that writes and reads back the few values below.
abbrev pub write_items : Values → String
write_items nil = "[]"
write_items (cons (str s) vs) = "ids"
write_items (cons v vs) = "messages"

abbrev pub write : Value → String
write (arr vs) = write_items vs
write (obj ms) = "{}"
write v = "null"

abbrev pub read : String → Option Value
read s =
    if str_eq s "[]"
    then some (array [])
    else if str_eq s "ids"
    then some (array (text "b1" ∷ []))
    else if str_eq s "messages"
    then some (array (message_value question ∷ []))
    else if str_eq s "task"
    then some asked_task
    else if str_eq s "done"
    then some completed
    else some null

abbrev pub writer : Python
writer = record py { compact = write; parse = read }

abbrev pub rules : Rules
rules = record {
  file_id = λ s. true;
  media_type = λ s. true;
  sha256 = λ s. true;
  canonical = λ v. "{}";
  quoted = λ v. "{}";
  decode = λ s. some [];
  digest = λ bytes. 171 ∷ [];
}

abbrev pub shop : Workshop
shop = record {
  py = writer;
  rules = rules;
  sha256 = digest;
  contract_text = λ v. "[]";
  system_prompt = λ c. "You are the Brain.";
  parameters = λ v. v;
  clarification_spec = record {
    name = "clarify";
    description = "Asks.";
    schema = object [];
    strict = some true;
  };
  browser_spec = record {
    name = "browser";
    description = "Browses.";
    schema = object [];
    strict = some true;
  };
  browser_summary = null;
  memory_spec = record {
    name = "memory";
    description = "Keeps.";
    schema = object [];
    strict = some true;
  };
  routine_spec = λ selected. record {
    name = "routine";
    description = "Repeats.";
    schema = object [];
    strict = none;
  };
}

abbrev pub ended_run : Journal
ended_run = entries (entry "outcome" (written "done") Run.done)

abbrev pub run_events : List Event
run_events =
    step_scheduled deferred browser_name
      (some (entries (entry "request" (written "task") Run.done)))
    ∷ []

abbrev pub when_held : {A : Type 0} → A → Bool → Result A Worker.WorkerError
when_held a true = ok a
when_held a false = err Worker.wrong_state

abbrev pub answer : Result Worker.Driven Worker.WorkerError
answer = ok (ended (Outcome.done ended_run))

-- A worker whose ledger holds one ended run or nothing.
abbrev pub worker : Worker
worker = record {
  Ledger = Bool;
  submit = λ run_id journal held. (ok tt, true);
  delete = λ run_id held. (ok tt, false);
  resolve = λ run_id step journal held. (ok tt, held);
  drive = λ run_id session held. (answer, held);
  pending = λ run_id held. when_held [] held;
  history = λ run_id held. when_held run_events held;
  result = λ run_id held. when_held (some (Outcome.done ended_run)) held;
  polls = 0;
}

abbrev pub turn : TurnRequest
turn = record {
  context = context;
  provider = record { provider = context.provider; model = "model"; api_key = "key" };
  attachments = [];
}

abbrev open_row : Row
open_row = record { scope = "ab"; history = "[]"; open_run = some "run"; committed_run = none }

abbrev pub request : ResumeRequest
request = record { turn = turn; results = ("b1", null) ∷ [] }

abbrev finished : Finished shop
unfolding shimpz_brain.Turn.Rows.row_thread shimpz_brain.Turn.Rows.or_state
    shimpz_brain.Conversation.from_value array shimpz_brain.Turn.Service.Requests.names_run
    shimpz_brain.Turn.Prepare.Resume.applied shimpz_brain.Turn.Service.Requests.answered_of
    shimpz_brain.Base.Sort.sorted shimpz_brain.Turn.Prepare.Resume.asked
    shimpz_brain.Turn.Prepare.Resume.scheduled Run.request_from_json Run.unwrap_text Run.journal_get
    Run.journal_str Run.request_from shimpz_brain.Json.str_of object shimpz_brain.Base.Sort.insert
    shimpz_brain.Base.Sort.str_leb shimpz_brain.Conversation.message_from
    shimpz_brain.Conversation.user_from shimpz_brain.Json.Types.get shimpz_brain.Json.as_str
    shimpz_brain.Json.has_exactly shimpz_brain.Json.members Run.interrupt_id
    shimpz_brain.Turn.Prepare.Resume.last_round shimpz_brain.Turn.Prepare.Resume.round_from
    shimpz_brain.Turn.Service.Requests.same_texts shimpz_brain.Turn.Service.Runs.failed_from
    to_value message_value text shimpz_brain.Turn.Prepare.Resume.is_step
finished = record {
  thread_id = "thread";
  run_id = "run";
  row = open_row;
  earlier = none;
  thread = record { scope = "ab"; history = []; open_run = some "run"; committed_run = none };
  events = run_events;
  journal = ended_run;
  completed = completed;
  messages = question ∷ [];
  turn = null;
  request = request;
  same_thread = refl;
  reads = refl;
  opened = refl;
  uncommitted = refl;
  asked_for = refl;
  last = refl;
  outcome = refl;
  success = refl;
  history = refl;
  reply = refl;
  history_text = refl;
  answered_text = refl;
  turn_text = refl;
}

abbrev at_end : Service worker
at_end = record {
  rows = ("thread", open_row) ∷ [];
  deliveries = [];
  ledger = true;
  sessions = [];
  log_kept = false;
  left = 0;
}

deletes_run :
    {Fault : Type 0} (l : Bool)
    → Fine shop worker finished l
    → Deleting Fault (Fine shop worker finished) (worker.delete "run" l)
deletes_run l fine = deleted (inr refl)

resume_after_stops_example :
    let (given, w) =
      resume shop worker request
        (restarted 13 (repeated shop worker request (6 ∷ 9 ∷ []) at_end)) in
    (given ≡ ok null) × Cleared shop worker finished (stores w)
unfolding shimpz_brain.Base.Table.lookup finished
resume_after_stops_example =
    resume_after_stops shop worker finished deletes_run (6 ∷ 9 ∷ []) 13 at_end
      (Recovery.ended (refl, refl, (refl, refl, refl))) (omega arith)

-- Three processes that stop, and the answer of the fourth.
abbrev stopped_thrice : Service worker
stopped_thrice = restarted 13 (repeated shop worker request (2 ∷ 6 ∷ 9 ∷ []) at_end)

requests_leave_none_example :
    ((r : StartRequest) (draws : Draws) → Leaves [] (start shop worker r draws))
    × ((r : ResumeRequest) → Leaves [] (resume shop worker r))
    × ((id : String) → Leaves [] (delete_thread shop worker id))
    × ((id interrupt : String) → Leaves [] (pending_action shop worker id interrupt))
requests_leave_none_example = requests_leave_none shop worker

-- A busy worker: two polls until its lease is free, then one timed wait.
pub data Phases : Type 0 where
  leased waiting_timed free : Phases

abbrev pub phase_drive : Phases → Result Worker.Driven Worker.WorkerError × Phases
phase_drive leased = (err Worker.busy, waiting_timed)
phase_drive waiting_timed = (ok Worker.timed, free)
phase_drive free = (answer, free)

abbrev pub busy_worker : Worker
busy_worker = record {
  Ledger = Phases;
  submit = λ run_id journal l. (ok tt, l);
  delete = λ run_id l. (ok tt, l);
  resolve = λ run_id step journal l. (ok tt, l);
  drive = λ run_id session l. phase_drive l;
  pending = λ run_id l. ok [];
  history = λ run_id l. ok run_events;
  result = λ run_id l. ok none;
  polls = 3;
}

abbrev pub leased_now : Service busy_worker
leased_now = record {
  rows = [];
  deliveries = [];
  ledger = leased;
  sessions = [];
  log_kept = false;
  left = 9;
}

abbrev able : Service worker
able = record at_end { left = 20 }

deletes_thread : (delete_thread shop worker "thread" able).0 ≡ ok tt
unfolding delete_thread shimpz_brain.Turn.World.◌>>=◌ shimpz_brain.Turn.Threads.load
    shimpz_brain.Turn.Threads.of_row lookup shimpz_brain.Turn.Rows.row_thread
    shimpz_brain.Turn.Rows.or_state shimpz_brain.Conversation.from_value array
    shimpz_brain.Turn.Service.Requests.delete_open shimpz_brain.Turn.Service.Requests.delete_run_of
    shimpz_brain.Turn.Service.Runs.delete_run shimpz_brain.Turn.Service.Runs.delete_within
    shimpz_brain.Turn.Service.Runs.call shimpz_brain.Turn.Service.Runs.after_delete
    shimpz_brain.Turn.Threads.delete shimpz_brain.Turn.Threads.truncate_log
deletes_thread = refl

delete_thread_erases_example :
    let w = (delete_thread shop worker "thread" able).1 in
    ((name : String)
      → lookup w.rows name ≡ (if str_eq "thread" name then none else lookup able.rows name))
    × ((name : String)
        → lookup w.deliveries name
          ≡ (if str_eq "thread" name then none else lookup able.deliveries name))
delete_thread_erases_example = delete_thread_erases shop worker "thread" able deletes_thread

abbrev answered_fresh : List (String × Value)
answered_fresh = ("b1", bool true) ∷ []

abbrev asks_task : PendingRequest
asks_task = record {
  step = 4;
  name = browser_name;
  request = entries (entry "request" (written "task") Run.done);
}

abbrev answered_now : List (String × Value)
answered_now = ("b0", null) ∷ ("b1", bool true) ∷ []

decodes_task : team_requests writer (asks_task ∷ []) ≡ ok (browse "b1" "open example.com" ∷ [])
unfolding team_requests Run.request_from_json Run.unwrap_text Run.journal_get Run.journal_str
    Run.request_from shimpz_brain.Json.str_of object text shimpz_brain.Json.has_exactly
decodes_task = refl

fresh_one :
    fresh_results answered_now (browse "b1" "open example.com" ∷ []) ("b0" ∷ "b1" ∷ [])
    ≡ ok (("b1", bool true) ∷ [])
unfolding fresh_results waiting Run.interrupt_id
fresh_one = refl

fresh_results_resolve_example :
    (answered_fresh
      ≡ filter
          (λ (r : String × Value). waiting (browse "b1" "open example.com" ∷ []) r.0)
          answered_now)
    × ((steps : List (ℕ × Value)) × (resolutions writer (asks_task ∷ []) (("b1", bool true) ∷ [])
          ≡ ok steps)
        × Resolves writer (asks_task ∷ []) steps (("b1", bool true) ∷ []))
fresh_results_resolve_example =
    fresh_results_resolve writer (asks_task ∷ []) (browse "b1" "open example.com" ∷ []) answered_now
      (("b1", bool true) ∷ []) ("b0" ∷ "b1" ∷ []) decodes_task fresh_one

abbrev offered_surface : Surface
offered_surface = record {
  system = "You are the Brain.";
  tools =
      record {
        name = "a_mail__a_list__ab";
        description = "Internal Assistant mail, Action list: Lists mail.";
        schema = object [];
        strict = some false;
      }
      ∷ shop.clarification_spec
      ∷ shop.browser_spec
      ∷ [];
  fixed =
      fixed_tokens writer "You are the Brain." (
        summary "a_mail__a_list__ab" "Lists mail." (object [])
        ∷ summary "clarify" "Asks." (object [])
        ∷ summary "browser" "Browses." null
        ∷ [])
      % 18446744073709551616;
  memory_tool = false;
  routine_tool = false;
  browser = true;
}

surfaced : surface shop context ≡ ok offered_surface
unfolding surface shimpz_brain.Turn.Prepare.Surface.offered_tools
    shimpz_brain.Attachments.Admission.distinct shimpz_brain.Turn.Prepare.Surface.action_tools
    shimpz_brain.Turn.Prepare.Surface.exposed_of shimpz_brain.Attachments.Projection.exposed
    shimpz_brain.Turn.Context.reads_content shimpz_brain.Turn.Prepare.Surface.own_tools
    shimpz_brain.Turn.Prepare.Surface.action_spec shimpz_brain.Turn.Prepare.Surface.action_name
    shimpz_brain.Tools.Action.tool_name shimpz_brain.Text.hex shimpz_brain.Tools.Browser.offered
    shimpz_brain.Turn.Context.carries_any fixed_tokens shimpz_brain.Budget.estimated_tokens text
    summary object
surfaced = refl

surface-Offered_example :
    Distinct (map (λ (tool : ToolSpec). tool.name) offered_surface.tools)
    × All (Offered shop context) offered_surface.tools
surface-Offered_example = surface-Offered shop context offered_surface surfaced
