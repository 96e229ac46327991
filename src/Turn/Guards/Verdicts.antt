-- ===== src/Turn/Guards/Verdicts.antt =====
-- What the review of a response promises (`Turn::review` of runtime/src/turn/definition.rs).
use shimpz_brain.Base.{◌∙◌, true, none, some, List, [], ◌∷◌, ◌≡◌, refl, sym, arith, All, ok}
use shimpz_brain.Base.Results.{>>=-eq-ok}
use shimpz_brain.Conversation.{AssistantMessage}
use shimpz_brain.Tools.Refusal.{latest}
use shimpz_brain.Tools.Browser
use shimpz_brain.Tools.Browser.Laws
use shimpz_brain.Turn.State.{Externals, Turn, take_steps}
use shimpz_brain.Turn.Guards.{
  Guard, after_browser, browser_alone, rerun, routine, memory, clarification, Reviewed, run,
  refused, recorded, apply, lift_failure, other_guards, guards, review_from, review,
}

head-eq : (g g' : Guard) (gs rest : List Guard) → g' ∷ gs ≡ g ∷ rest → g ≡ g'
head-eq g g' gs rest e = ground arith

first_holds :
    (P : Guard → Type 0) (gs rest : List Guard) (g : Guard) → gs ≡ g ∷ rest → All P gs → P g
first_holds P [] rest g e all = absurd (ground arith)
first_holds P (g' ∷ gs) rest g e (first, others) = rw (head-eq g g' gs rest e) first

module _ (ext : Externals) where
  -- A guard reads the turn, but not the steps that it has taken.
  apply_steps :
      (turn counted : Turn) (g : Guard)
      → take_steps turn 1 ≡ ok counted
      → apply ext counted g ≡ apply ext turn g
  unfolding take_steps apply
  apply_steps turn counted after_browser h = ground arith
  apply_steps turn counted browser_alone h = ground arith
  apply_steps turn counted rerun h = ground arith
  apply_steps turn counted routine h = ground arith
  apply_steps turn counted memory h = ground arith
  apply_steps turn counted clarification h = ground arith

  All-apply :
      (gs : List Guard) (turn counted : Turn)
      → take_steps turn 1 ≡ ok counted
      → All (λ g. apply ext counted g ≡ ok run) gs
      → All (λ g. apply ext turn g ≡ ok run) gs
  All-apply [] turn counted h all = tt
  All-apply (g ∷ gs) turn counted h (first, rest) =
      (sym (apply_steps turn counted g h) ∙ first, All-apply gs turn counted h rest)

  by_verdict :
      (turn counted : Turn) (gs : List Guard) (g : Guard) (out : Reviewed × Turn)
      (verdict : Reviewed)
      → take_steps turn 1 ≡ ok counted
      → lift_failure ext (apply ext counted g) ≡ ok verdict
      → out.0 ≡ run
      → elim verdict [ run ↦ review_from ext counted gs | other ↦ ok (other, counted) ] ≡ ok out
      → (review_from ext counted gs ≡ ok out
          → out.0 ≡ run
          → All (λ g'. apply ext counted g' ≡ ok run) gs)
      → All (λ g'. apply ext turn g' ≡ ok run) (g ∷ gs)
  unfolding lift_failure
  by_verdict turn counted gs g out run taken judged r later ih = (
    ground (arith, apply_steps turn counted g taken),
    All-apply gs turn counted taken (ih later r),
  )
  by_verdict turn counted gs g out (refused c) taken judged r later ih = absurd (ground arith)
  by_verdict turn counted gs g out (recorded c) taken judged r later ih = absurd (ground arith)

  review_from_runs :
      (gs : List Guard) (turn : Turn) (out : Reviewed × Turn)
      → review_from ext turn gs ≡ ok out
      → out.0 ≡ run
      → All (λ g. apply ext turn g ≡ ok run) gs
  unfolding review_from
  review_from_runs [] turn out h r = tt
  review_from_runs (g ∷ gs) turn out h r =
      let (counted, taken, rest) = >>=-eq-ok (take_steps turn 1) _ h in
      let (verdict, judged, later) = >>=-eq-ok (lift_failure ext (apply ext counted g)) _ rest in
      by_verdict turn counted gs g out verdict taken judged r later
        (review_from_runs gs counted out)

  -- A response whose calls are run has passed every guard of the turn.
  pub review_runs :
      (turn : Turn) (out : Reviewed × Turn)
      → review ext turn ≡ ok out
      → out.0 ≡ run
      → All (λ g. apply ext turn g ≡ ok run) (guards turn)
  unfolding review
  review_runs turn out h r = review_from_runs (guards turn) turn out h r

  -- In the pass after a browser result, a response whose calls are run makes none.
  pub review_after_browser :
      (turn : Turn) (out : Reviewed × Turn) (response : AssistantMessage)
      → turn.after_browser ≡ true
      → review ext turn ≡ ok out
      → out.0 ≡ run
      → latest turn.messages ≡ some response
      → response.calls ≡ []
  unfolding guards apply
  review_after_browser turn out response after h r e =
      let passed =
        first_holds (λ g. apply ext turn g ≡ ok run) (guards turn) (other_guards turn) after_browser
          (rw after refl) (review_runs turn out h r) in
      let quiet : Browser.review_after turn.messages ≡ ok none = ground arith in
      (Browser.Laws.review_after_pass_iff turn.messages).0.0 quiet response e
