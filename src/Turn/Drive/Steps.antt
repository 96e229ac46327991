-- ===== src/Turn/Drive/Steps.antt =====
-- The graph steps that the parts of a round count (runtime/src/turn/definition.rs and step.rs).
use shimpz_brain.Base.{◌+◌, ◌≤◌, String, false, List, [], ◌∷◌, ◌≡◌, refl, arith, ok}
use shimpz_brain.Base.Results.{>>=-eq-ok}
use shimpz_brain.Json.Types.{Value, null}
use shimpz_brain.Conversation.{ToolCall}
use shimpz_brain.Turn.State.{
  Externals, Turn, recursion_limit, next_id, interrupt_id_next, take_steps,
}
use shimpz_brain.Turn.Guards.{
  Guard, lift_failure, Reviewed, run, refused, recorded, apply, review_from,
}
use shimpz_brain.Turn.ToolsNode.{
  answer_with, result_content, Answer, answer, now, ask, answers_of, push_answers, answer_local,
  answer_action, answer_browser,
}
use shimpz_brain.Turn.Drive.{answer_calls}

pub take_steps_same :
    (turn t : Turn)
    → turn.steps ≤ recursion_limit
    → take_steps turn 1 ≡ ok t
    → (t ≡ record turn { steps = t.steps })
      × (t.steps ≡ turn.steps + 1)
      × (t.steps ≤ recursion_limit)
unfolding take_steps
take_steps_same turn t le h = ground arith

pub steps-next_id : (turn : Turn) (kind : String) → (next_id turn kind).1.steps ≡ turn.steps
unfolding next_id
steps-next_id turn kind = refl

module _ (ext : Externals) where
  -- The steps that the rest of a review leaves.
  abbrev pub KeptSteps : Turn → Reviewed × Turn → Type 0
  KeptSteps turn out = (turn.steps ≤ out.1.steps) × (out.1.steps ≤ recursion_limit)

  verdict_steps :
      (turn counted : Turn) (gs : List Guard) (out : Reviewed × Turn) (verdict : Reviewed)
      → counted.steps ≡ turn.steps + 1
      → counted.steps ≤ recursion_limit
      → (review_from ext counted gs ≡ ok out → KeptSteps counted out)
      → elim verdict [ run ↦ review_from ext counted gs | other ↦ ok (other, counted) ] ≡ ok out
      → KeptSteps turn out
  verdict_steps turn counted gs out run more bound ih later = ground (arith, ih later)
  verdict_steps turn counted gs out (refused c) more bound ih later = ground arith
  verdict_steps turn counted gs out (recorded c) more bound ih later = ground arith

  -- The review only counts steps, and within the limit.
  pub review_from_steps :
      (gs : List Guard) (turn : Turn) (out : Reviewed × Turn)
      → turn.steps ≤ recursion_limit
      → review_from ext turn gs ≡ ok out
      → KeptSteps turn out
  unfolding review_from
  review_from_steps [] turn out le h = ground arith
  review_from_steps (g ∷ gs) turn out le h =
      let (counted, taken, rest) = >>=-eq-ok (take_steps turn 1) _ h in
      let (verdict, _, later) = >>=-eq-ok (lift_failure ext (apply ext counted g)) _ rest in
      let (same, more, bound) = take_steps_same turn counted le taken in
      verdict_steps turn counted gs out verdict more bound (review_from_steps gs counted out bound)
        later

  steps-interrupt_id_next : (turn : Turn) → (interrupt_id_next ext turn).1.steps ≡ turn.steps
  unfolding interrupt_id_next
  steps-interrupt_id_next turn = refl

  steps-answer :
      (turn : Turn) (call : ToolCall) (offered : List String) (out : Answer × Turn)
      → answer ext turn call offered ≡ ok out
      → out.1.steps ≡ turn.steps
  unfolding answer answer_local answer_action answer_browser interrupt_id_next
  steps-answer turn call offered out h = ground arith

  pub steps-answers_of :
      (calls : List ToolCall) (turn : Turn) (offered : List String) (out : List Answer × Turn)
      → answers_of ext turn calls offered ≡ ok out
      → out.1.steps ≡ turn.steps
  unfolding answers_of
  steps-answers_of [] turn offered out h = ground arith
  steps-answers_of (call ∷ calls) turn offered out h =
      let (step, first, later) = >>=-eq-ok (answer ext turn call offered) _ h in
      let (rest, others, done) = >>=-eq-ok (answers_of ext step.1 calls offered) _ later in
      ground (
        arith,
        steps-answer turn call offered step first,
        steps-answers_of calls step.1 offered rest others,
      )

  pub steps-answer_calls :
      (calls : List ToolCall) (turn : Turn) (content : String)
      → (answer_calls ext turn calls content).steps ≡ turn.steps
  unfolding answer_calls next_id
  steps-answer_calls [] turn content = refl
  steps-answer_calls (call ∷ calls) turn content =
      steps-answer_calls calls (answer_with ext turn call content false) content

  pub steps-push_answers :
      (calls : List ToolCall) (turn : Turn) (answers : List Answer) (results : List Value)
      → (push_answers ext turn calls answers results).steps ≡ turn.steps
  unfolding push_answers next_id
  steps-push_answers [] turn answers results = refl
  steps-push_answers (call ∷ calls) turn [] results = refl
  steps-push_answers (call ∷ calls) turn (now content error ∷ answers) results =
      steps-push_answers calls (answer_with ext turn call content error) answers results
  steps-push_answers (call ∷ calls) turn (ask request ∷ answers) [] =
      steps-push_answers calls (answer_with ext turn call (result_content ext request null) false)
        answers []
  steps-push_answers (call ∷ calls) turn (ask request ∷ answers) (result ∷ results) =
      steps-push_answers calls (answer_with ext turn call (result_content ext request result) false)
        answers results
