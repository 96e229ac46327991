-- ===== src/Turn/Drive/Termination.antt =====
-- The loop of a turn and its fuel (runtime/src/turn/definition.rs): a round counts at least one graph
-- step of the twelve between two batches of Team results.
use shimpz_brain.Base.{
  map, ℕ, zero, suc, ◌+◌, ◌-◌, ◌*◌, ◌≤◌, ◌<◌, String, Bool, true, false, Option, some, List, [],
  ◌∷◌, ◌≡◌, ◌≢◌, refl, arith, is_nil, if◌then◌else◌, Result, ok, err, Bool-cases, is_some, ◌⊎◌, inl,
  inr,
}
use shimpz_brain.Base.Results.{◌>>=◌, >>=-eq-ok}
use shimpz_brain.Json.Types.{Value}
use shimpz_brain.Conversation.{ToolCall, AssistantMessage, assistant}
use shimpz_brain.Turn.Run.{request_name, request_json, wrap_text, Journal, TeamRequest, TurnInput}
use shimpz_brain.Turn.State.{
  Interrupt, Externals, Host, Stop, Turn, recursion_limit, new, next_id, take_steps, push, resumed,
  Reply, answered, interrupted,
}
use shimpz_brain.Turn.Guards.{
  guards, action_names, Reviewed, run, refused, recorded, review, review_from,
}
use shimpz_brain.Turn.Settle.{settle}
use shimpz_brain.Turn.Model.{check_memory, chat_request, call_model, model_reply, message_of}
use shimpz_brain.Turn.ToolsNode.{answers_of, requests_of, team_results, run_tools, deferred_reply}
use shimpz_brain.Turn.Drive.{
  answer_all, latest_calls, Next, again, finished, finish, run_calls, after_review, round, drive,
  run_turn, Finished,
}
use shimpz_brain.Turn.Drive.Steps.{
  take_steps_same, review_from_steps, steps-answers_of, steps-push_answers, steps-answer_calls,
}

module _ (ext : Externals) (host : Host) where
  open host use {Ctx, model, deferred, pending, model_pending, deferred_pending}

  -- A step of the loop makes progress: a batch of Team was spent, or a graph step was counted.
  abbrev Progress : Turn → Ctx → Turn → Ctx → Type 0
  Progress turn ctx turn' ctx' =
      (turn'.steps ≤ recursion_limit)
      × (pending ctx' * 13 + (12 - turn'.steps) < pending ctx * 13 + (12 - turn.steps))

  steps-model_reply :
      (turn : Turn) (reply : Reply Journal) (out : AssistantMessage × Turn)
      → model_reply ext host turn reply ≡ ok out
      → out.1.steps ≡ turn.steps
  unfolding model_reply message_of next_id
  steps-model_reply turn (interrupted i) out h = ground arith
  steps-model_reply turn (Reply.failed f) out h = ground arith
  steps-model_reply turn (answered output) out h = ground arith

  call_model_steps :
      (turn : Turn) (ctx : Ctx) (out : AssistantMessage × Turn × Ctx)
      → turn.steps ≤ recursion_limit
      → call_model ext host turn ctx ≡ ok out
      → (out.1.steps ≡ turn.steps + 1)
        × (out.1.steps ≤ recursion_limit)
        × (pending out.2 ≤ pending ctx)
  unfolding call_model
  call_model_steps turn ctx out le h =
      let (counted, taken, later) = >>=-eq-ok (take_steps turn 1) _ h in
      let (_, more, bound) = take_steps_same turn counted le taken in
      let (done, replied, same) = >>=-eq-ok (model_reply ext host counted _) _ later in
      ground (
        arith,
        steps-model_reply counted _ done replied,
        model_pending ctx (wrap_text ext.py "call" (chat_request counted)),
      )

  pub finish-finished :
      (turn turn' : Turn) (ctx ctx' : Ctx) → finish ext host turn ctx ≢ ok (again turn' ctx')
  unfolding finish
  finish-finished turn turn' ctx ctx' h =
      let (done, _, later) = >>=-eq-ok (settle ext turn) _ h in
      let (memory, _, same) = >>=-eq-ok (check_memory ext host done.1 ctx) _ later in
      absurd (ground arith)

  -- A batch without a request leaves the run alone; any other is spent.
  team_results_pending :
      (ctx : Ctx) (requests : List TeamRequest) (out : List Value × Ctx)
      → team_results ext host ctx requests ≡ ok out
      → ((is_nil requests ≡ true) × (pending out.1 ≡ pending ctx))
        ⊎ ((is_nil requests ≡ false) × (pending out.1 < pending ctx))
  unfolding team_results deferred_reply
  team_results_pending ctx [] out h = inl (ground arith)
  team_results_pending ctx (r ∷ rs) out h =
      let asked = deferred ctx (map (λ q. (request_name q, request_json ext.py q)) (r ∷ rs)) in
      let (results, replied, same) = >>=-eq-ok (deferred_reply ext host asked.0) _ h in
      inr (refl, spent (deferred ctx _) refl results replied (ground arith))
    where
      spent :
          (asked : Result (List Journal) Interrupt × Ctx)
          → asked ≡ deferred ctx (map (λ q. (request_name q, request_json ext.py q)) (r ∷ rs))
          → (results : List Value) → deferred_reply ext host asked.0 ≡ ok results
          → out.1 ≡ asked.1
          → pending out.1 < pending ctx
      spent (ok js, later) eq results replied same = ground (
        arith,
        deferred_pending ctx (map (λ q. (request_name q, request_json ext.py q)) (r ∷ rs)) js,
      )
      spent (err i, later) eq results replied same = absurd (ground arith)

  run_tools_progress :
      (turn : Turn) (ctx : Ctx) (calls : List ToolCall) (out : Bool × Turn × Ctx)
      → turn.steps ≤ recursion_limit
      → run_tools ext host turn ctx calls ≡ ok out
      → (out.1.steps ≤ recursion_limit)
        × (pending out.2 * 13 + (12 - out.1.steps) ≤ pending ctx * 13 + (12 - turn.steps))
  unfolding run_tools resumed
  run_tools_progress turn ctx calls out le h =
      let (answers, answered_all, later) =
        >>=-eq-ok (answers_of ext turn calls (action_names turn.input)) _ h in
      let (results, asked, same) =
        >>=-eq-ok (team_results ext host ctx (requests_of answers.0)) _ later in
      let kept = steps-answers_of ext calls turn (action_names turn.input) answers answered_all in
      let pushed = steps-push_answers ext calls answers.1 answers.0 results.0 in
      elim (team_results_pending ctx (requests_of answers.0) results asked) [
        | inl (none_asked, left) ↦ ground arith
        | inr (some_asked, left) ↦ ground arith
      ]

  run_calls_progress :
      (turn turn' : Turn) (ctx ctx' : Ctx)
      → turn.steps ≤ recursion_limit
      → run_calls ext host turn ctx ≡ ok (again turn' ctx')
      → (turn'.steps ≤ recursion_limit)
        × (pending ctx' * 13 + (12 - turn'.steps) ≤ pending ctx * 13 + (12 - turn.steps))
  unfolding run_calls
  run_calls_progress turn turn' ctx ctx' le h = by_calls (is_nil (latest_calls turn)) h
    where
      by_calls :
          (stops : Bool)
          → (if stops
              then finish ext host turn ctx
              else (take_steps turn 1 >>= λ counted.
                  run_tools ext host counted ctx (latest_calls turn) >>= λ ran.
                  if ran.0 then finish ext host ran.1 ran.2 else ok (again ran.1 ran.2)))
            ≡ ok (again turn' ctx')
          → (turn'.steps ≤ recursion_limit)
            × (pending ctx' * 13 + (12 - turn'.steps) ≤ pending ctx * 13 + (12 - turn.steps))
      by_calls true stopped = absurd (finish-finished turn turn' ctx ctx' stopped)
      by_calls false went =
          let (counted, taken, later) = >>=-eq-ok (take_steps turn 1) _ went in
          let (_, more, bound) = take_steps_same turn counted le taken in
          let (ran, running, rest) =
            >>=-eq-ok (run_tools ext host counted ctx (latest_calls turn)) _ later in
          let (within, fewer) =
            run_tools_progress counted ctx (latest_calls turn) ran bound running in
          elim (Bool-cases ran.0) [
            | inl e ↦ absurd (finish-finished ran.1 turn' ran.2 ctx' (ground arith))
            | inr e ↦ ground arith
          ]

  after_review_progress :
      (reviewed : Reviewed) (turn turn' : Turn) (ctx ctx' : Ctx)
      → turn.steps ≤ recursion_limit
      → after_review ext host reviewed turn ctx ≡ ok (again turn' ctx')
      → (turn'.steps ≤ recursion_limit)
        × (pending ctx' * 13 + (12 - turn'.steps) ≤ pending ctx * 13 + (12 - turn.steps))
  unfolding after_review answer_all
  after_review_progress run turn turn' ctx ctx' le h = run_calls_progress turn turn' ctx ctx' le h
  after_review_progress (refused correction) turn turn' ctx ctx' le h =
      ground (arith, steps-answer_calls ext (latest_calls turn) turn correction)
  after_review_progress (recorded content) turn turn' ctx ctx' le h =
      absurd (finish-finished _ turn' ctx ctx' h)

  round-Progress :
      (turn turn' : Turn) (ctx ctx' : Ctx)
      → turn.steps ≤ recursion_limit
      → round ext host turn ctx ≡ ok (again turn' ctx')
      → Progress turn ctx turn' ctx'
  unfolding round review
  round-Progress turn turn' ctx ctx' le h =
      let (called, calling, later) = >>=-eq-ok (call_model ext host turn ctx) _ h in
      let (more, bound, left) = call_model_steps turn ctx called le calling in
      let asked = push called.1 (assistant called.0) in
      let (reviewed, reviewing, rest) = >>=-eq-ok (review_from ext asked (guards asked)) _ later in
      let (counted, within) = review_from_steps ext (guards asked) asked reviewed bound reviewing in
      let (end, fewer) =
        after_review_progress reviewed.0 reviewed.1 turn' called.2 ctx' within rest in
      (end, ground arith)

  abbrev continue : ℕ → Result (Next ext host) Stop → Option (Result Finished Stop)
  continue fuel (err stop) = some (err stop)
  continue fuel (ok (finished done)) = some (ok done)
  continue fuel (ok (again turn ctx)) = drive ext host fuel turn ctx

  drive_step :
      (fuel n : ℕ) (turn : Turn) (ctx : Ctx) (next : Result (Next ext host) Stop)
      (r : Result Finished Stop)
      → round ext host turn ctx ≡ next
      → ((left : ℕ) → n ≤ left → continue left next ≡ some r)
      → suc n ≤ fuel
      → drive ext host fuel turn ctx ≡ some r
  unfolding drive
  drive_step zero n turn ctx next r same ends more = absurd (ground arith)
  drive_step (suc fuel) n turn ctx (err stop) r same ends more = ground (arith, same, ends fuel)
  drive_step (suc fuel) n turn ctx (ok (finished done)) r same ends more =
      ground (arith, same, ends fuel)
  drive_step (suc fuel) n turn ctx (ok (again turn' ctx')) r same ends more =
      ground (arith, same, ends fuel)

  abbrev Outcome : ℕ → Turn → Ctx → Type 0
  Outcome n turn ctx =
      (r : Result Finished Stop) × ((fuel : ℕ) → n ≤ fuel → drive ext host fuel turn ctx ≡ some r)

  outcome :
      (n : ℕ) (turn : Turn) (ctx : Ctx) (next : Result (Next ext host) Stop)
      → turn.steps ≤ recursion_limit
      → pending ctx * 13 + (12 - turn.steps) < suc n
      → round ext host turn ctx ≡ next
      → ((turn' : Turn) (ctx' : Ctx)
          → turn'.steps ≤ recursion_limit
          → pending ctx' * 13 + (12 - turn'.steps) < n
          → Outcome n turn' ctx')
      → Outcome (suc n) turn ctx
  outcome n turn ctx (err stop) le small same ih =
      (err stop, λ fuel. drive_step fuel n turn ctx _ _ same (λ left more. refl))
  outcome n turn ctx (ok (finished done)) le small same ih =
      (ok done, λ fuel. drive_step fuel n turn ctx _ _ same (λ left more. refl))
  outcome n turn ctx (ok (again turn' ctx')) le small same ih =
      let (bound, fewer) = round-Progress turn turn' ctx ctx' le same in
      let (r, ends) = ih turn' ctx' bound (ground arith) in
      (r, λ fuel. drive_step fuel n turn ctx _ r same ends)

  -- Enough fuel gives one outcome, whatever is left of it.
  drive_total :
      (n : ℕ) (turn : Turn) (ctx : Ctx)
      → turn.steps ≤ recursion_limit
      → pending ctx * 13 + (12 - turn.steps) < n
      → Outcome n turn ctx
  drive_total zero turn ctx le small = absurd (ground arith)
  drive_total (suc n) turn ctx le small =
      outcome n turn ctx (round ext host turn ctx) le small refl (drive_total n)

  -- A turn's run ends, with one outcome: with fuel of thirteen rounds, and thirteen more for each
  -- batch that the run's ledger and Team still answer, the loop does return, and more fuel returns
  -- the same. The host is any whose model calls add no batch to those and whose answered deferred
  -- steps each spend one.
  pub run_turn_total :
      (run_id : String) (input : TurnInput) (ctx : Ctx) (fuel : ℕ)
      → pending ctx * 13 + 13 ≤ fuel
      → (is_some (run_turn ext host fuel run_id input ctx) ≡ true)
        × (run_turn ext host fuel run_id input ctx
            ≡ run_turn ext host (pending ctx * 13 + 13) run_id input ctx)
  unfolding run_turn new
  run_turn_total run_id input ctx fuel more =
      let (r, ends) =
        drive_total (pending ctx * 13 + 13) (new ext run_id input) ctx (ground arith)
          (ground arith) in
      ground (arith, ends fuel more, ends (pending ctx * 13 + 13) (ground arith))
