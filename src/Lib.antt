-- ===== src/Lib.antt =====
-- The Brain of a Shimpz Team (runtime/src): an HTTP service that answers one chat turn at a time.
-- A turn reads a conversation, asks a model provider, reviews the answer with guards, runs the
-- calls that pass through Team, and settles on a reply, a question or a Routine, with the memory
-- changes that the person asked for. This library models the turn's own logic, from the stored
-- conversation to the settled reply.
--
-- The parts. Json.antt (runtime/src/json.rs, over the value type of vendor/strict-
-- json/src/value.rs): `object`, `array`, `text`, `int` and `uint` build values; `str_of`,
-- `u64_of`, `bool_of`, `array_of` and `has_exactly` read them strictly. Conversation.antt
-- (runtime/src/conversation.rs): messages, and `to_value` and `from_value`. Budget.antt
-- (runtime/src/budget.rs): token estimates, `exchanges`, what `history_to_drop` drops and what
-- `results_to_omit` omits; its proofs are in Budget/Split, Exchanges, History and Omission.
-- Errors.antt and Text.antt: runtime/src/errors.rs and text.rs. Tools/: one file for each guarded
-- tool of runtime/src/tools, where a guard is a function from the messages to pass, correction or
-- error. Turn/Context.antt and Turn/Run.antt: the pinned context (runtime/src/turn/context.rs) and
-- the run journal (runtime/src/turn/run.rs), whose JSON forms are read back.
--
-- The turn (runtime/src/turn/definition.rs and step.rs) is explicit state passing: `Turn` of
-- Turn/State.antt is the struct of that name, and each method that changes it returns the new one.
-- Turn/Guards.antt is `review` and `apply`, Turn/Model.antt `call_model` and `check_memory`,
-- Turn/ToolsNode.antt `answer`, `push_answers` and `run_tools`, Turn/Settle.antt `settle`, and
-- Turn/Drive.antt the loop `drive`. A function that can fail returns `Result`; a turn that stops
-- is the error `Stop`, an interrupt of the run or a failure of the turn.
--
-- Attachments/ is runtime/src/attachments.rs: Admission.antt `admit`, Projection.antt what the
-- provider is shown and which Assistants a turn offers, Charges.antt `charge` with
-- attachments/count.rs. Turn/Prepare/ is runtime/src/turn/service/prepare.rs: Surface.antt
-- `surface`, Window.antt `fit`, Start.antt `start`, and Resume.antt `resumed` and the readings of
-- a run's history. Turn/Threads.antt and Turn/Rows.antt are the thread store
-- (runtime/src/turn/threads.rs); Turn/Service/ is runtime/src/turn/service.rs: Runs.antt drives,
-- settles and reconciles a run, Requests.antt is `resume` and `delete_thread`, Starts.antt `start`
-- and `pending_action`. They act on a `World` (Turn/World.antt): the rows, Holdpoint's ledger and
-- the installed sessions. Every step on a store, and every crash point of
-- runtime/src/failpoint.rs, may be the process's last: `left` counts the steps that still succeed,
-- and after them each fails and changes nothing. A transaction (`commit`) stages its rows and
-- publishes them in one step.
--
-- Server/Input.antt (runtime/src/server/input.rs) reads a closed request object, and
-- Server/Turns.antt (runtime/src/server/turn_input.rs) admits the requests that start and resume a
-- turn, with Server/Turns/Assistants.antt for their Assistants, Server/Turns/Clock.antt for a
-- start's clock and Server/Turns/Recording.antt for what they carry of a Routine (`admit_context`
-- of runtime/src/tools/routine.rs).
--
-- Egress.antt (egress/src/lib.rs) and Egress/Policy.antt (egress/src/policy.rs) are the proxy that
-- is the Brain's only internet route: `provider_hosts` reads the hosts of a parsed model catalog,
-- `start` decides whether the proxy starts, and `permitted` admits a CONNECT target.
--
-- Parameters. `Python` (Python.antt) is Python's text and JSON semantics and `Team` (Team.antt)
-- the rest of the team_protocol crate, whose copy is protocol/team/http; `Externals` adds SHA-256,
-- the payload check of the action-schema crate, and what the Routine tool records. `Host`
-- (Turn/State.antt) is Holdpoint's run context (vendor/holdpoint): a journaled model call and a
-- deferred step, with two laws. Its `pending` counts the deferred batches that the run can still
-- be answered, which a model call does not raise and an answered batch lowers; a run's ledger and
-- Team answer finitely many.
--
-- `Worker` (Turn/Service/Worker.antt) is Holdpoint's worker over its ledger. `Workshop`
-- (Turn/Prepare/Inputs.antt) holds the system prompt, the tool specifications and the digests,
-- `Front` (Server/Turns/Assistants.antt) what a request's admission takes from Team's protocol and
-- the action-schema crate, and `Rules` (Attachments/Admission.antt) Team's patterns, canonical
-- encoder and base64 decoder.
--
-- Numbers. A `u32` or `u64` keeps its wrap-around or saturation where the code adds; lengths are
-- natural numbers. The loop `drive` has no bound in the code; here it takes fuel: thirteen rounds
-- for each pending batch and thirteen more are enough, since a batch is spent or one of at most
-- twelve graph steps is counted in every round. The waits for a busy run end at a deadline in the
-- code; here they are `polls`, and `drive_until_settled` takes as fuel the steps that are left,
-- since every drive is one of them.
--
-- Not modelled: provider adapters, the HTTP server beyond the admission of a turn's requests,
-- decisions, the thread locks (the requests of a thread run one after another), the thread that
-- watches for a cancelled request, the workers that count attachments, prompts, process start, and
-- the tool declarations. Examples/ applies each theorem at concrete values.
pub mod Attachments
pub mod Base
pub mod Budget
pub mod Conversation
pub mod Egress
pub mod Errors
pub mod Examples
pub mod Json
pub mod Python
pub mod Server
pub mod Team
pub mod Text
pub mod Tools
pub mod Turn
