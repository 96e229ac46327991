-- ===== src/Tools/Browser/Laws.antt =====
-- What the Browser's guards let through (runtime/src/tools/browser.rs).
use shimpz_brain.Base.{
  none, some, List, [], ◌≡◌, ◌≢◌, ◌↔◌, ◌⊎◌, Result, ok, err, refl, arith, Option-cases, is_nil→eq,
  inl, inr,
}
use shimpz_brain.Conversation.{ToolCall, AssistantMessage, Message}
use shimpz_brain.Errors.{BrainError}
use shimpz_brain.Tools.Refusal.{LoneCall, absent, mixed, alone, latest, lone_call}
use shimpz_brain.Tools.Browser.{tool_name, after_text, review_alone, review_after}

-- After a browser result a response passes exactly when it makes no call, and is otherwise refused.
pub review_after_pass_iff :
    (messages : List Message)
    → ((review_after messages ≡ ok none)
        ↔ ((turn : AssistantMessage) → latest messages ≡ some turn → turn.calls ≡ []))
      × (review_after messages ≢ ok none → review_after messages ≡ ok (some after_text))
unfolding review_after
review_after_pass_iff messages = (
  (
    (λ h turn e. is_nil→eq turn.calls (ground arith)),
    λ h. elim (Option-cases (latest messages)) [
      | inl e ↦ ground arith
      | inr (turn, e) ↦ ground (arith, h turn e)
    ],
  ),
  ground arith,
)

-- A response that calls the Browser passes the guard only if that call is its only one.
pub review_alone_pass :
    (messages : List Message)
    → review_alone messages ≡ ok none
    → (lone_call messages tool_name ≡ ok absent)
      ⊎ ((call : ToolCall) × (lone_call messages tool_name ≡ ok (alone call)))
unfolding review_alone
review_alone_pass messages h = review_alone_cases (lone_call messages tool_name) refl
  where
    review_alone_cases :
        (r : Result LoneCall BrainError)
        → lone_call messages tool_name ≡ r
        → (lone_call messages tool_name ≡ ok absent)
          ⊎ ((call : ToolCall) × (lone_call messages tool_name ≡ ok (alone call)))
    review_alone_cases (err e) q = absurd (ground arith)
    review_alone_cases (ok absent) q = inl q
    review_alone_cases (ok mixed) q = absurd (ground arith)
    review_alone_cases (ok (alone call)) q = inr (call, q)
