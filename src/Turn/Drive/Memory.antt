-- ===== src/Turn/Drive/Memory.antt =====
-- What memory changes a completed run returns (runtime/src/turn/definition.rs and step.rs).
use shimpz_brain.Base.{
  ℕ, zero, suc, Bool, true, false, Option, some, List, [], ◌++◌, ◌≡◌, refl, arith, All, ◌⊎◌, inl,
  inr, is_nil, if◌then◌else◌, Result, ok, err, Bool-cases, Option-cases, String,
}
use shimpz_brain.Base.Results.{◌>>=◌, >>=-eq-ok}
use shimpz_brain.Conversation.{assistant, Message}
use shimpz_brain.Json.Types.{Value}
use shimpz_brain.Tools.Memory.{Change, proposed, confirmation, current_message, lasting, accepted}
use shimpz_brain.Tools.Memory.Quotes.{IsOwnWords, proposed-IsOwnWords}
use shimpz_brain.Tools.Memory.Check.{accepted-All}
use shimpz_brain.Turn.Context.{Memory}
use shimpz_brain.Turn.Run.{Journal, TurnInput, wrap_text}
use shimpz_brain.Turn.State
use shimpz_brain.Turn.State.{
  push, new, Externals, Host, Turn, Stop, Reply, answered, interrupted, take_steps,
}
use shimpz_brain.Turn.Guards.{Reviewed, run, refused, recorded, review}
use shimpz_brain.Turn.Model.{check_request, accept_reply, check_memory, call_model, verdict_of}
use shimpz_brain.Turn.Settle.{settle}
use shimpz_brain.Turn.ToolsNode.{run_tools}
use shimpz_brain.Turn.Drive.{
  Finished, Next, finished, again, finish, latest_calls, run_calls, after_review, round, drive,
  run_turn,
}

accepted-nil : (verdict : Option Value) → accepted [] verdict ≡ []
unfolding accepted
accepted-nil verdict = elim (Option-cases (lasting verdict)) [
  | inl e ↦ ground arith
  | inr (flags, e) ↦ ground arith
]

module _ (ext : Externals) where
  -- The changes quote the message that starts the last part of the conversation, or there is none.
  abbrev OwnWords : List Message → List Change → Type 0
  OwnWords messages changes =
      (changes ≡ [])
      ⊎ ((earlier : List Message) × (own : List Message) × (messages ≡ earlier ++ own)
          × All (IsOwnWords ext.py ext.team (current_message ext.py ext.team own)) changes)

  accepted-OwnWords :
      (messages : List Message) (verdict : Option Value)
      → OwnWords messages (accepted (proposed ext.py ext.team messages) verdict)
  accepted-OwnWords messages verdict = elim (proposed-IsOwnWords ext.py ext.team messages) [
    | inl e ↦ inl (none_accepted e)
    | inr (earlier, own, same, all) ↦ inr (
      earlier,
      own,
      same,
      (accepted-All (IsOwnWords ext.py ext.team (current_message ext.py ext.team own)) _ verdict
          all),
    )
  ]
    where
      none_accepted :
          proposed ext.py ext.team messages ≡ []
          → accepted (proposed ext.py ext.team messages) verdict ≡ []
      none_accepted e = rw e (accepted-nil verdict)

  module _ (host : Host) where
    open host use {Ctx, model}

    accept_reply-OwnWords :
        (messages : List Message) (reply : Reply Journal) (changes : List Change)
        → accept_reply ext host reply (proposed ext.py ext.team messages) ≡ ok changes
        → OwnWords messages changes
    unfolding accept_reply
    accept_reply-OwnWords messages (interrupted i) changes h = absurd (ground arith)
    accept_reply-OwnWords messages (State.Reply.failed f) changes h = absurd (ground arith)
    accept_reply-OwnWords messages (answered output) changes h =
        let same : changes
            ≡ accepted (proposed ext.py ext.team messages) (verdict_of ext host output) =
          ground arith in
        rw same (accepted-OwnWords messages (verdict_of ext host output))

    confirmation-proposed :
        (messages : List Message) (memories : Option (List Memory)) (prompt : String)
        (changes : List Change)
        → confirmation ext.py ext.team messages memories ≡ some (prompt, changes)
        → changes ≡ proposed ext.py ext.team messages
    unfolding confirmation
    confirmation-proposed messages memories prompt changes h = ground arith

    check_memory-OwnWords :
        (turn : Turn) (ctx : Ctx) (changes : List Change)
        → check_memory ext host turn ctx ≡ ok changes
        → OwnWords turn.messages changes
    unfolding check_memory
    check_memory-OwnWords turn ctx changes h =
        elim (Option-cases
          (confirmation ext.py ext.team turn.messages turn.input.context.memories)) [
            | inl e ↦ inl (ground arith)
            | inr ((prompt, proposals), e) ↦
                let same =
                  confirmation-proposed turn.messages turn.input.context.memories prompt proposals
                    e in
                accept_reply-OwnWords turn.messages
                  (model ctx (wrap_text ext.py "call" (check_request ext host turn prompt))).0
                  changes (ground arith)
          ]

    -- What a run has settled on is in its last part: `finish` of some turn.
    abbrev FinishedBy : Finished → Type 0
    FinishedBy f = (turn : Turn) × (ctx : Ctx) × (finish ext host turn ctx ≡ ok (finished f))

    run_calls-FinishedBy :
        (turn : Turn) (ctx : Ctx) (f : Finished)
        → run_calls ext host turn ctx ≡ ok (finished f)
        → FinishedBy f
    unfolding run_calls
    run_calls-FinishedBy turn ctx f h = by_calls (is_nil (latest_calls turn)) h
      where
        by_calls :
            (stops : Bool)
            → (if stops
                then finish ext host turn ctx
                else (take_steps turn 1 >>= λ counted.
                    run_tools ext host counted ctx (latest_calls turn) >>= λ ran.
                    if ran.0 then finish ext host ran.1 ran.2 else ok (again ran.1 ran.2)))
              ≡ ok (finished f)
            → FinishedBy f
        by_calls true stopped = (turn, ctx, stopped)
        by_calls false went =
            let (counted, taken, later) = >>=-eq-ok (take_steps turn 1) _ went in
            let (ran, running, rest) =
              >>=-eq-ok (run_tools ext host counted ctx (latest_calls turn)) _ later in
            elim (Bool-cases ran.0) [
              | inl e ↦ (ran.1, ran.2, ground arith)
              | inr e ↦ absurd (ground arith)
            ]

    after_review-FinishedBy :
        (reviewed : Reviewed) (turn : Turn) (ctx : Ctx) (f : Finished)
        → after_review ext host reviewed turn ctx ≡ ok (finished f)
        → FinishedBy f
    unfolding after_review
    after_review-FinishedBy run turn ctx f h = run_calls-FinishedBy turn ctx f h
    after_review-FinishedBy (refused c) turn ctx f h = absurd (ground arith)
    after_review-FinishedBy (recorded c) turn ctx f h = (_, ctx, h)

    round-FinishedBy :
        (turn : Turn) (ctx : Ctx) (f : Finished)
        → round ext host turn ctx ≡ ok (finished f)
        → FinishedBy f
    unfolding round
    round-FinishedBy turn ctx f h =
        let (called, _, later) = >>=-eq-ok (call_model ext host turn ctx) _ h in
        let (reviewed, _, rest) =
          >>=-eq-ok (review ext (push called.1 (assistant called.0))) _ later in
        after_review-FinishedBy reviewed.0 reviewed.1 called.2 f rest

    after_round :
        (fuel : ℕ) (turn : Turn) (ctx : Ctx) (f : Finished) (next : Result (Next ext host) Stop)
        → round ext host turn ctx ≡ next
        → drive ext host (suc fuel) turn ctx ≡ some (ok f)
        → ((turn' : Turn) (ctx' : Ctx)
            → drive ext host fuel turn' ctx' ≡ some (ok f)
            → FinishedBy f)
        → FinishedBy f
    unfolding drive
    after_round fuel turn ctx f (err stop) e h ih = absurd (ground arith)
    after_round fuel turn ctx f (ok (finished done)) e h ih =
        round-FinishedBy turn ctx f (ground arith)
    after_round fuel turn ctx f (ok (again turn' ctx')) e h ih = ih turn' ctx' (ground arith)

    drive-FinishedBy :
        (fuel : ℕ) (turn : Turn) (ctx : Ctx) (f : Finished)
        → drive ext host fuel turn ctx ≡ some (ok f)
        → FinishedBy f
    unfolding drive
    drive-FinishedBy zero turn ctx f h = absurd (ground arith)
    drive-FinishedBy (suc fuel) turn ctx f h =
        after_round fuel turn ctx f (round ext host turn ctx) refl h
          (λ turn' ctx' rest. drive-FinishedBy fuel turn' ctx' f rest)

    finish-OwnWords :
        (turn : Turn) (ctx : Ctx) (f : Finished)
        → finish ext host turn ctx ≡ ok (finished f)
        → OwnWords f.messages f.memory
    unfolding finish
    finish-OwnWords turn ctx f h =
        let (done, _, later) = >>=-eq-ok (settle ext turn) _ h in
        let (memory, checked, same) = >>=-eq-ok (check_memory ext host done.1 ctx) _ later in
        let of_messages : f.messages ≡ done.1.messages = ground arith in
        let of_memory : f.memory ≡ memory = ground arith in
        rw (of_messages, of_memory) (check_memory-OwnWords done.1 ctx memory checked)

    -- Whatever memory changes a completed run returns, there is none, or its messages end in a part
    -- whose user message the changes quote: each is a remembered or forgotten preference whose quote,
    -- compared without case and spacing, stands word for word among that message's unquoted words.
    pub run_turn-OwnWords :
        (fuel : ℕ) (run_id : String) (input : TurnInput) (ctx : Ctx) (f : Finished)
        → run_turn ext host fuel run_id input ctx ≡ some (ok f)
        → (f.memory ≡ [])
          ⊎ ((earlier : List Message) × (own : List Message) × (f.messages ≡ earlier ++ own)
              × All (IsOwnWords ext.py ext.team (current_message ext.py ext.team own)) f.memory)
    unfolding run_turn
    run_turn-OwnWords fuel run_id input ctx f h =
        let (turn, last_ctx, end) = drive-FinishedBy fuel (new ext run_id input) ctx f h in
        finish-OwnWords turn last_ctx f end
