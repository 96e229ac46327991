-- ===== src/Turn/ToolsNode/Requests.antt =====
-- What a turn asks Team to run (runtime/src/turn/step.rs): only offered Actions with a payload of
-- their schema, and browser tasks with a valid objective.
use mathlib.Core.List.{Memᴰ}
use mathlib.Core.List.Memᴰ
use shimpz_brain.Base.{
  ◌⊎◌, ◌&&◌, sym, ap, String, str_eq, true, false, some, List, [], ◌∷◌, ◌≡◌, refl, arith, any, All,
  Result, ok, err, Bool-cases, Option-cases, inl, inr,
}
use shimpz_brain.Base.Results.{>>=-eq-ok}
use shimpz_brain.Json.Types.{Value}
use shimpz_brain.Conversation.{ToolCall}
use shimpz_brain.Tools.Action
use shimpz_brain.Tools.Browser
use shimpz_brain.Turn.Context.{TurnContext, ActionDefinition, AssistantDefinition}
use shimpz_brain.Turn.Run.{TurnInput, TeamRequest, action, browse}
use shimpz_brain.Turn.State.{Externals, Turn, interrupt_id_next}
use shimpz_brain.Turn.ToolsNode.{
  Answer, now, ask, answer, answer_local, answer_action, answer_browser, answers_of, requests_of,
  action_of, find_action,
}

find_action_found :
    (tool_of : String → String) (offered : List String) (name : String)
    (actions : List ActionDefinition) (a : ActionDefinition)
    → find_action tool_of offered name actions ≡ some a
    → Memᴰ a actions
      × (str_eq (tool_of a.id) name ≡ true)
      × (any (str_eq (tool_of a.id)) offered ≡ true)
find_action_found tool_of offered name [] a h = absurd (cc)
find_action_found tool_of offered name (b ∷ bs) a h =
    elim (Bool-cases (str_eq (tool_of b.id) name && any (str_eq (tool_of b.id)) offered)) [
      | inl e ↦
          let same : b ≡ a = ground arith in
          (
            Memᴰ.head (sym same),
            ground (arith, ap (λ d. str_eq (tool_of (ActionDefinition.id d)) name) same),
            ground (arith, ap (λ d. any (str_eq (tool_of (ActionDefinition.id d))) offered) same),
          )
      | inr e ↦
          let (member, named, among) = find_action_found tool_of offered name bs a (ground arith) in
          (Memᴰ.tail member, named, among)
    ]

module _ (ext : Externals) where
  -- An offered Action of one of the Assistants, with a payload of its schema; or a browser task.
  abbrev pub Allowed : List AssistantDefinition → List String → TeamRequest → Type 0
  Allowed assistants offered (action id owner name input) =
      (o : AssistantDefinition) × Memᴰ o assistants
      × (o.id ≡ owner)
      × (a : ActionDefinition) × Memᴰ a o.actions
      × (a.id ≡ name)
      × (any (str_eq (Action.tool_name ext.sha256 owner name)) offered ≡ true)
      × (ext.valid_payload a.input_schema input ≡ true)
  Allowed assistants offered (browse id objective) =
      (arguments : Value) × (Browser.objective ext.team arguments ≡ ok objective)

  found_offered :
      (id : String) (b a : ActionDefinition) (owner : String) (offered : List String)
      → id ≡ owner
      → b ≡ a
      → any (str_eq (Action.tool_name ext.sha256 id b.id)) offered ≡ true
      → any (str_eq (Action.tool_name ext.sha256 owner a.id)) offered ≡ true
  found_offered id b a owner offered same_id same among = rw (sym same_id, sym same) among

  action_of_found :
      (assistants : List AssistantDefinition) (offered : List String) (name owner : String)
      (a : ActionDefinition)
      → action_of ext assistants offered name ≡ some (owner, a)
      → (o : AssistantDefinition) × Memᴰ o assistants
        × (o.id ≡ owner)
        × Memᴰ a o.actions
        × (any (str_eq (Action.tool_name ext.sha256 owner a.id)) offered ≡ true)
  unfolding action_of
  action_of_found [] offered name owner a h = absurd (cc)
  action_of_found (o ∷ os) offered name owner a h =
      elim (Option-cases (find_action (Action.tool_name ext.sha256 o.id) offered name o.actions)) [
        | inr (b, e) ↦
            let (member, named, among) = find_action_found _ offered name o.actions b e in
            (
              o,
              Memᴰ.head refl,
              ground arith,
              Memᴰ.cast (ground arith) member,
              found_offered o.id b a owner offered (ground arith) (ground arith) among,
            )
        | inl e ↦
            let (found, member, named, owned, among) =
              action_of_found os offered name owner a (ground arith) in
            (found, Memᴰ.tail member, named, owned, among)
      ]

  abbrev Fine : List AssistantDefinition → List String → Answer → Type 0
  Fine assistants offered (ask r) = Allowed assistants offered r
  Fine assistants offered (now content error) = Unit

  answer_action-Fine :
      (turn : Turn) (call : ToolCall) (offered : List String) (owner : String)
      (a : ActionDefinition)
      → action_of ext turn.input.context.assistants offered call.name ≡ some (owner, a)
      → Fine turn.input.context.assistants offered (answer_action ext turn call owner a).0
  unfolding answer_action
  answer_action-Fine turn call offered owner a e =
      let (o, member, named, owned, among) =
        action_of_found turn.input.context.assistants offered call.name owner a e in
      elim (Bool-cases (ext.valid_payload a.input_schema call.arguments)) [
        | inl v ↦ rw v (o, member, named, a, owned, refl, among, v)
        | inr v ↦ rw v tt
      ]

  answer_browser-Fine :
      (turn : Turn) (call : ToolCall) (offered : List String) (r : Result String String)
      → Browser.objective ext.team call.arguments ≡ r
      → Fine turn.input.context.assistants offered (answer_browser ext turn call).0
  unfolding answer_browser
  answer_browser-Fine turn call offered (ok text) e =
      let same : (answer_browser ext turn call).0
          ≡ ask (browse (interrupt_id_next ext turn).0 text) =
        ground arith in
      rw same (call.arguments, e)
  answer_browser-Fine turn call offered (err c) e =
      let same : (answer_browser ext turn call).0 ≡ now c false = ground arith in rw same tt

  quiet-Fine :
      (assistants : List AssistantDefinition) (offered : List String) (a : Answer)
      → requests_of (a ∷ []) ≡ []
      → Fine assistants offered a
  unfolding requests_of
  quiet-Fine assistants offered (now content error) h = tt
  quiet-Fine assistants offered (ask r) h = absurd (ground arith)

  answer_local_cases :
      (turn : Turn) (call : ToolCall) (out : Answer × Turn)
      → answer_local ext turn call ≡ ok out
      → (out ≡ answer_browser ext turn call)
        ⊎ ((requests_of (out.0 ∷ []) ≡ []) × (out.1.input ≡ turn.input))
  unfolding answer_local requests_of
  answer_local_cases turn call out h = ground arith

  answer_local-Fine :
      (turn : Turn) (call : ToolCall) (offered : List String) (out : Answer × Turn)
      → answer_local ext turn call ≡ ok out
      → Fine turn.input.context.assistants offered out.0
  answer_local-Fine turn call offered out h = elim (answer_local_cases turn call out h) [
    | inl same ↦
        let first : out.0 ≡ (answer_browser ext turn call).0 = ap (λ o. o.0) same in
        rw first
          (answer_browser-Fine turn call offered (Browser.objective ext.team call.arguments) refl)
    | inr (quiet, kept) ↦ quiet-Fine turn.input.context.assistants offered out.0 quiet
  ]

  input-answer :
      (turn : Turn) (call : ToolCall) (offered : List String) (out : Answer × Turn)
      → answer ext turn call offered ≡ ok out
      → out.1.input ≡ turn.input
  unfolding answer answer_local answer_action answer_browser interrupt_id_next
  input-answer turn call offered out h = ground arith

  known_cases :
      (turn : Turn) (call : ToolCall) (offered : List String) (owner : String)
      (a : ActionDefinition) (out : Answer × Turn)
      → action_of ext turn.input.context.assistants offered call.name ≡ some (owner, a)
      → answer ext turn call offered ≡ ok out
      → (requests_of (out.0 ∷ []) ≡ []) ⊎ (out ≡ answer_action ext turn call owner a)
  unfolding answer requests_of
  known_cases turn call offered owner a out e h = ground arith

  answer_cases :
      (turn : Turn) (call : ToolCall) (offered : List String) (out : Answer × Turn)
      → answer ext turn call offered ≡ ok out
      → (requests_of (out.0 ∷ []) ≡ [])
        ⊎ ((answer_local ext turn call ≡ ok out)
            ⊎ ((owner : String) × (a : ActionDefinition) × (action_of ext
                    turn.input.context.assistants offered call.name
                  ≡ some (owner, a))
                × (out ≡ answer_action ext turn call owner a)))
  unfolding answer requests_of
  answer_cases turn call offered out h =
      elim (Option-cases (action_of ext turn.input.context.assistants offered call.name)) [
        | inl e ↦ ground arith
        | inr ((owner, a), e) ↦ elim (known_cases turn call offered owner a out e h) [
          | inl quiet ↦ inl quiet
          | inr same ↦ inr (inr (owner, a, e, same))
        ]
      ]

  answer-Fine :
      (turn : Turn) (call : ToolCall) (offered : List String) (out : Answer × Turn)
      → answer ext turn call offered ≡ ok out
      → Fine turn.input.context.assistants offered out.0
  answer-Fine turn call offered out h = elim (answer_cases turn call offered out h) [
    | inl quiet ↦ quiet-Fine turn.input.context.assistants offered out.0 quiet
    | inr (inl local) ↦ answer_local-Fine turn call offered out local
    | inr (inr (owner, a, e, same)) ↦
        let first : out.0 ≡ (answer_action ext turn call owner a).0 = ap (λ o. o.0) same in
        rw first (answer_action-Fine turn call offered owner a e)
  ]

  All-requests :
      (assistants : List AssistantDefinition) (offered : List String) (a : Answer)
      (rest : List Answer)
      → Fine assistants offered a
      → All (Allowed assistants offered) (requests_of rest)
      → All (Allowed assistants offered) (requests_of (a ∷ rest))
  unfolding requests_of
  All-requests assistants offered (ask r) rest fine among = (fine, among)
  All-requests assistants offered (now content error) rest fine among = among

  -- Every request that the answers of a response's calls make of Team is one that the turn allows:
  -- an Action that one of its Assistants declares, whose tool is offered, with a payload valid for
  -- its schema; or a browser task whose objective the Browser's rules accept.
  pub answers_of-Allowed :
      (calls : List ToolCall) (turn : Turn) (offered : List String) (out : List Answer × Turn)
      → answers_of ext turn calls offered ≡ ok out
      → All (Allowed turn.input.context.assistants offered) (requests_of out.0)
  unfolding answers_of requests_of
  answers_of-Allowed [] turn offered out h =
      let none_asked : requests_of out.0 ≡ [] = ground arith in rw none_asked tt
  answers_of-Allowed (call ∷ calls) turn offered out h =
      let (step, first, later) = >>=-eq-ok (answer ext turn call offered) _ h in
      let (rest, others, done) = >>=-eq-ok (answers_of ext step.1 calls offered) _ later in
      let among : All (Allowed turn.input.context.assistants offered) (requests_of rest.0) =
        rw
          (sym (
            ap (λ i. TurnContext.assistants (TurnInput.context i))
              (input-answer turn call offered step first)))
          (answers_of-Allowed calls step.1 offered rest others) in
      let asked : out.0 ≡ step.0 ∷ rest.0 = ground arith in
      rw asked (
        All-requests turn.input.context.assistants offered step.0 rest.0
          (answer-Fine turn call offered step first) among)
