-- ===== src/Tools/Refusal/Laws.antt =====
-- What `lone_call` tells a guard (runtime/src/tools/refusal.rs).
use shimpz_brain.Base.{
  String, str_eq, true, some, List, [], ◌∷◌, ◌≡◌, ◌≢◌, ◌↔◌, inl, inr, refl, ok, err, arith,
  Option-cases,
}
use shimpz_brain.Conversation.{ToolCall, InvalidCall, AssistantMessage, Message}
use shimpz_brain.Errors.{BrainError, contract}
use shimpz_brain.Tools.Refusal.{
  alone, latest, names_tool, lone_of, lone_among, lone_call, unparsable,
}

module _ (tool : String) where
  lone_among-alone :
      (calls : List ToolCall) (invalid : List InvalidCall) (call : ToolCall)
      → lone_among calls invalid tool ≡ ok (alone call)
      → (calls ≡ call ∷ []) × (invalid ≡ []) × (str_eq call.name tool ≡ true)
  unfolding lone_among lone_of names_tool
  lone_among-alone [] [] call h = absurd (cc)
  lone_among-alone [] (i ∷ invalid) call h = absurd (ground arith)
  lone_among-alone (c ∷ []) [] call h = ground arith
  lone_among-alone (c ∷ []) (i ∷ invalid) call h = absurd (ground arith)
  lone_among-alone (c ∷ d ∷ calls) [] call h = absurd (ground arith)
  lone_among-alone (c ∷ d ∷ calls) (i ∷ invalid) call h = absurd (ground arith)

  lone_among-err :
      (calls : List ToolCall) (invalid : List InvalidCall) (e : BrainError)
      → lone_among calls invalid tool ≡ err e
      → (names_tool calls invalid tool ≡ true) × (invalid ≢ []) × (e ≡ contract unparsable)
  unfolding lone_among
  lone_among-err calls [] e h = absurd (ground arith)
  lone_among-err calls (i ∷ invalid) e h = (ground arith, (λ q. cc), ground arith)

  lone_among_err :
      (calls : List ToolCall) (invalid : List InvalidCall) (e : BrainError)
      → names_tool calls invalid tool ≡ true
      → invalid ≢ []
      → e ≡ contract unparsable
      → lone_among calls invalid tool ≡ err e
  unfolding lone_among
  lone_among_err calls [] e n i q = absurd (i refl)
  lone_among_err calls (i ∷ invalid) e n _ q = rw n (rw q)

  lone_among_one :
      (calls : List ToolCall) (invalid : List InvalidCall) (call : ToolCall)
      → calls ≡ call ∷ []
      → invalid ≡ []
      → str_eq call.name tool ≡ true
      → lone_among calls invalid tool ≡ ok (alone call)
  unfolding lone_among lone_of names_tool
  lone_among_one calls invalid call c i n = rw (c, i) (rw n)

  -- A guarded call stands alone exactly when it is the latest model turn's only call, no unparsable
  -- call stands beside it, and it names the tool.
  pub lone_call-alone_iff :
      (messages : List Message) (call : ToolCall)
      → (lone_call messages tool ≡ ok (alone call)) ↔ (
          (turn : AssistantMessage) × (latest messages ≡ some turn)
          × (turn.calls ≡ call ∷ [])
          × (turn.invalid_calls ≡ [])
          × (str_eq call.name tool ≡ true))
  unfolding lone_call
  lone_call-alone_iff messages call = (
    (λ h. elim (Option-cases (latest messages)) [
      | inl e ↦ absurd (ground arith)
      | inr (turn, e) ↦
          let parts = lone_among-alone turn.calls turn.invalid_calls call (ground arith) in
          (turn, e, parts.0, parts.1, parts.2)
    ]),
    λ (turn, e, calls, invalid, named).
        ground (arith, lone_among_one turn.calls turn.invalid_calls call calls invalid named),
  )

  -- A guarded call beside an unparsable one is the contract error, and nothing else is an error.
  pub lone_call-err_iff :
      (messages : List Message) (e : BrainError)
      → (lone_call messages tool ≡ err e) ↔ (
          (turn : AssistantMessage) × (latest messages ≡ some turn)
          × (names_tool turn.calls turn.invalid_calls tool ≡ true)
          × (turn.invalid_calls ≢ [])
          × (e ≡ contract unparsable))
  unfolding lone_call
  lone_call-err_iff messages e = (
    (λ h. elim (Option-cases (latest messages)) [
      | inl q ↦ absurd (ground arith)
      | inr (turn, q) ↦
          let parts = lone_among-err turn.calls turn.invalid_calls e (ground arith) in
          (turn, q, parts.0, parts.1, parts.2)
    ]),
    λ (turn, q, named, some_invalid, same).
        ground (arith, lone_among_err turn.calls turn.invalid_calls e named some_invalid same),
  )
