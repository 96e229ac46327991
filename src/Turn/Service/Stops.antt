-- ===== src/Turn/Service/Stops.antt =====
-- Team repeats a resume after any stops of the process: runtime/src/turn/service.rs, `resume`, with
-- the crash points of runtime/src/failpoint.rs.
use shimpz_brain.Base.{ℕ, ◌+◌, ◌≤◌, ◌≡◌, refl, subst, Result, ok, inl, inr, arith, List, [], ◌∷◌}
use shimpz_brain.Errors.{BrainError}
use shimpz_brain.Turn.Prepare.Inputs.{Workshop, ResumeRequest}
use shimpz_brain.Turn.World.{World}
use shimpz_brain.Turn.Service.Worker.{Worker, Service}
use shimpz_brain.Turn.Service.Requests.{resume}
use shimpz_brain.Turn.Service.Rules.{Stores, stores, Ends, returns, stops}
use shimpz_brain.Turn.Service.Steps.{Deleting}
use shimpz_brain.Turn.Service.Recovery.{Finished, Fine, Cleared, Phase, cleared}
use shimpz_brain.Turn.Service.Repeats.{resume-Ends}

-- A new process, which stops after `n` more steps on the stores.
abbrev pub restarted : {Ledger Session : Type 0} → ℕ → World Ledger Session → World Ledger Session
restarted n w = record w { left = n }

module _ (shop : Workshop) (worker : Worker) where
  -- The same resume, again and again, each time in a process that may stop.
  unfoldable pub repeated : ResumeRequest → List ℕ → Service worker → Service worker
  repeated request [] w = w
  repeated request (n ∷ ns) w = repeated request ns (resume shop worker request (restarted n w)).1

module _ {Ledger Session : Type 0} {Fault : Type 0} {Safe : Stores Ledger → Type 0} {A : Type 0}
    {Good : A → Stores Ledger → Type 0} where
  Ends-safe :
      (n k : ℕ) (p : Result A BrainError × World Ledger Session)
      → Ends Fault Safe Good n k p
      → ((a : A) (s : Stores Ledger) → Good a s → Safe s)
      → Safe (stores p.1)
  Ends-safe n k p (returns good h) keep = keep _ _ good
  Ends-safe n k p (stops safe h) keep = safe

  pub Ends-good_of :
      (n k : ℕ) (p : Result A BrainError × World Ledger Session) (a : A)
      → Ends Fault Safe Good n k p
      → p.0 ≡ ok a
      → Good a (stores p.1)
  Ends-good_of n k p a (returns {a = b} {w} good h) same =
      let e : b ≡ a = ground arith in subst (λ (x : A). Good x (stores w)) e good
  Ends-good_of n k p a (stops safe h) same = absurd (cc)

module _ {Ledger Session : Type 0} {Safe : Stores Ledger → Type 0} {A : Type 0}
    {Good : A → Stores Ledger → Type 0} where
  -- With steps enough and no fault, an action returns.
  Ends-returns :
      (n k : ℕ) (p : Result A BrainError × World Ledger Session)
      → k ≤ n
      → Ends ⊥ Safe Good n k p
      → (a : A) × (p.0 ≡ ok a) × Good a (stores p.1)
  Ends-returns n k p enough (returns {a} good h) = (a, refl, good)
  Ends-returns n k p enough (stops safe (inl h)) = absurd (omega arith)
  Ends-returns n k p enough (stops safe (inr h)) = absurd h

module _ (shop : Workshop) (worker : Worker) (f : Finished shop) (Fault : Type 0)
    (law : (l : worker.Ledger)
      → Fine shop worker f l
      → Deleting Fault (Fine shop worker f) (worker.delete f.run_id l)) where
  repeated-Phase :
      (ns : List ℕ) (w : Service worker)
      → Phase shop worker f (stores w)
      → Phase shop worker f (stores (repeated shop worker f.request ns w))
  unfolding repeated
  repeated-Phase [] w phase = phase
  repeated-Phase (n ∷ ns) w phase = repeated-Phase ns _ (
      Ends-safe n (worker.polls + 13) _ (resume-Ends shop worker f Fault law (restarted n w) phase)
        λ a s good. cleared good.1)

module _ (shop : Workshop) (worker : Worker) (f : Finished shop)
    (law : (l : worker.Ledger)
      → Fine shop worker f l
      → Deleting ⊥ (Fine shop worker f) (worker.delete f.run_id l)) where
  -- Where the ledger refuses no deletion, the first resume that is left `polls + 13` steps answers
  -- with the run's turn, however many resumes stopped before it and wherever they stopped.
  pub resume_after_stops :
      (ns : List ℕ) (n : ℕ) (w : Service worker)
      → Phase shop worker f (stores w)
      → worker.polls + 13 ≤ n
      → let (answer, w') =
          resume shop worker f.request (restarted n (repeated shop worker f.request ns w)) in
        (answer ≡ ok f.turn) × Cleared shop worker f (stores w')
  resume_after_stops ns n w phase enough =
      let w' = restarted n (repeated shop worker f.request ns w) in
      let (v, same, good) =
        Ends-returns n (worker.polls + 13) (resume shop worker f.request w') enough
          (resume-Ends shop worker f ⊥ law w' (repeated-Phase shop worker f ⊥ law ns w phase)) in
      (rw (← good.0) same, good.1)
