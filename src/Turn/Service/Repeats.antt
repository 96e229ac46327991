-- ===== src/Turn/Service/Repeats.antt =====
-- Team repeats a resume whose answer it lost: runtime/src/turn/service.rs, `resume`.
use shimpz_brain.Base.{
  ℕ, suc, ◌+◌, ◌≡◌, refl, sym, subst, ◌∙◌, Result, ok, err, inl, inr, arith, String, Option, some,
  List, [], eq_refl,
}
use shimpz_brain.Base.Table.{lookup}
use shimpz_brain.Json.Types.{Value}
use shimpz_brain.Turn.Prepare.Inputs.{Workshop}
use shimpz_brain.Turn.Prepare.Resume.{Event, team_requests}
use shimpz_brain.Turn.Rows.{Thread, thread_row, row_thread, delivery_row}
use shimpz_brain.Turn.Threads.{load}
use shimpz_brain.Turn.World.{Row, DeliveryRow, Act, ◌>>=◌}
use shimpz_brain.Turn.Service.Worker.{WorkerError, wrong_state, done, Worker, Service}
use shimpz_brain.Turn.Service.Runs.{pending_requests, of_worker}
use shimpz_brain.Turn.Service.Requests.{
  Open, answered_of, names_run, resume, resume_thread, resume_on, after_history, resume_open,
  after_result, settle_ended, open_of,
}
use shimpz_brain.Turn.Service.Rules.{
  Stores, stores, Ends, Gives, bound, given, lifted, lift_ends, Ends-more,
}
use shimpz_brain.Turn.Service.Steps.{Deleting, loads, asks}
use shimpz_brain.Turn.Service.Reads.{reads_committed, reads_cleared}
use shimpz_brain.Turn.Service.Recovery.{
  Finished, committed_thread, cleared_thread, kept_turn, Held, Ended, Fine, Cleared, Phase, ended,
  committed, cleared,
}
use shimpz_brain.Turn.Service.Resumes.{
  Safe, Done, delivered_again, delivered_after, outcome_committed, let_go,
}

module _ (shop : Workshop) (worker : Worker) (f : Finished shop) (Fault : Type 0)
    (law : (l : worker.Ledger)
      → Fine shop worker f l
      → Deleting Fault (Fine shop worker f) (worker.delete f.run_id l)) where
  abbrev Goal : Act (Service worker) Value → ℕ → Service worker → Type 0
  Goal act k w =
      Ends Fault (Safe shop worker f Fault law) (Done shop worker f Fault law) w.left k (act w)

  abbrev seen : Open
  seen = open_of shop worker f.events []

  -- The end of the run is read: what is done with it at a thread.
  result_read :
      (k : ℕ) (w : Service worker) (thread : Thread)
      → Held shop worker f w.ledger
      → Phase shop worker f (stores w)
      → ((w' : Service worker)
          → stores w' ≡ stores w
          → Goal
              (settle_ended shop worker f.thread_id thread f.run_id seen
                (answered_of f.request)
                (done f.journal))
              k
              w')
      → Goal
          (resume_open shop worker f.thread_id thread f.run_id seen
            (answered_of f.request)
            f.request)
          (suc k)
          w
  unfolding resume_open of_worker after_result
  result_read k w thread held safe rest =
      given 1 k (suc k) _ _ _ _ w (omega arith)
        (asks shop.py worker Fault _ w safe (worker.result f.run_id))
        λ w1 e. lifted k (some (done f.journal)) _ _ w1 (rw held.2) (rest w1 e)

  pending_read :
      (w : Service worker)
      → Held shop worker f w.ledger
      → Phase shop worker f (stores w)
      → Ends Fault
          (Safe shop worker f Fault law)
          (Gives [] (stores w))
          w.left
          1
          (pending_requests shop.py worker f.run_id w)
  unfolding pending_requests of_worker team_requests
  pending_read w held safe =
      given 1 0 1 _ _ _ _ w (omega arith)
        (asks shop.py worker Fault _ w safe (worker.pending f.run_id))
        λ w1 e. lifted 0 [] _ _ w1 (rw held.1) (lift_ends [] _ w1 refl (refl, e))

  -- The run is held: its history, its pending requests and its end are read.
  history_read :
      (k : ℕ) (w : Service worker) (thread : Thread) (r : Result (List Event) WorkerError)
      → r ≡ ok f.events
      → Held shop worker f w.ledger
      → Phase shop worker f (stores w)
      → ((w' : Service worker)
          → stores w' ≡ stores w
          → Goal
              (settle_ended shop worker f.thread_id thread f.run_id seen
                (answered_of f.request)
                (done f.journal))
              k
              w')
      → Goal
          (after_history shop worker r f.thread_id thread f.run_id
            (answered_of f.request)
            f.request)
          (k + 2)
          w
  unfolding after_history
  history_read k w thread r same held safe rest = rw same (
      given 1 (suc k) (k + 2) [] _ _ _ w (omega arith) (pending_read w held safe) λ w1 e.
        result_read k w1 thread
          (subst (λ (s : Stores worker.Ledger). Held shop worker f s.ledger) (sym e) held)
          (subst (Phase shop worker f) (sym e) safe) λ w2 e2. rest w2 (e2 ∙ e))

  -- A thread that still has the run open.
  resumed_on :
      (k : ℕ) (w : Service worker) (thread : Thread)
      → Phase shop worker f (stores w)
      → ((w' : Service worker)
          → stores w' ≡ stores w
          → Goal
              (after_history shop worker
                (worker.history f.run_id w.ledger)
                f.thread_id
                thread
                f.run_id
                (answered_of f.request)
                f.request)
              k
              w')
      → Goal
          (resume_on shop worker
            (some f.run_id)
            f.thread_id
            thread
            (answered_of f.request)
            f.request)
          (suc k)
          w
  unfolding resume_on
  resumed_on k w thread safe rest =
      given 1 k (suc k) _ _ _ _ w (omega arith)
        (asks shop.py worker Fault _ w safe (worker.history f.run_id)) rest

  at_row :
      (w w' : Service worker) (row : Row)
      → stores w' ≡ stores w
      → lookup w.rows f.thread_id ≡ some row
      → lookup w'.rows f.thread_id ≡ some row
  at_row w w' row e =
      subst (λ (s : Stores worker.Ledger). lookup s.rows f.thread_id ≡ some row) (sym e)

  at_delivery :
      (w w' : Service worker) (row : DeliveryRow)
      → stores w' ≡ stores w
      → lookup w.deliveries f.thread_id ≡ some row
      → lookup w'.deliveries f.thread_id ≡ some row
  at_delivery w w' row e =
      subst (λ (s : Stores worker.Ledger). lookup s.deliveries f.thread_id ≡ some row) (sym e)

  at_ledger :
      (w w' : Service worker)
      → stores w' ≡ stores w
      → Held shop worker f w.ledger
      → Held shop worker f w'.ledger
  at_ledger w w' e = subst (λ (s : Stores worker.Ledger). Held shop worker f s.ledger) (sym e)

  settled_first :
      (w : Service worker)
      → Ended shop worker f (stores w)
      → Goal
          (settle_ended shop worker f.thread_id f.thread f.run_id seen
            (answered_of f.request)
            (done f.journal))
          (worker.polls + 9)
          w
  unfolding settle_ended
  settled_first w here =
      rw (f.uncommitted, f.asked_for, f.last) (outcome_committed shop worker f Fault law w here)

  settled_again :
      (w : Service worker)
      → lookup w.rows f.thread_id ≡ some (thread_row shop.py (committed_thread shop worker f))
      → lookup w.deliveries f.thread_id ≡ some (delivery_row shop.py (kept_turn shop worker f))
      → Held shop worker f w.ledger
      → Goal
          (settle_ended shop worker f.thread_id
            (committed_thread shop worker f)
            f.run_id
            seen
            (answered_of f.request)
            (done f.journal))
          (worker.polls + 4)
          w
  unfolding settle_ended names_run
  settled_again w row kept held =
      rw (eq_refl f.run_id) (delivered_after shop worker f Fault law w row kept (inl held))

  -- The run is gone: the thread lets go of it.
  gone_settled :
      (w : Service worker)
      → lookup w.rows f.thread_id ≡ some (thread_row shop.py (committed_thread shop worker f))
      → lookup w.deliveries f.thread_id ≡ some (delivery_row shop.py (kept_turn shop worker f))
      → Fine shop worker f w.ledger
      → Goal
          (after_history shop worker
            (err wrong_state)
            f.thread_id
            (committed_thread shop worker f)
            f.run_id
            (answered_of f.request)
            f.request)
          2
          w
  unfolding after_history
  gone_settled w row kept fine =
      bound 1 1 _ _ w (let_go shop worker f Fault law w kept (committed row kept fine))
        λ _ w1 here. delivered_again shop worker f Fault law w1 here

  -- What a resume does with the thread that it loads, by the phase in which it finds the stores.
  opened_on :
      (k : ℕ) (o : Option String) (w : Service worker) (thread : Thread)
      → o ≡ some f.run_id
      → Goal
          (resume_on shop worker
            (some f.run_id)
            f.thread_id
            thread
            (answered_of f.request)
            f.request)
          k
          w
      → Goal (resume_on shop worker o f.thread_id thread (answered_of f.request) f.request) k w
  opened_on k o w thread same rest = rw same rest

  Ended-resumes :
      (w : Service worker)
      → Ended shop worker f (stores w)
      → Goal
          (resume_thread shop worker (some f.thread) f.thread_id (answered_of f.request) f.request)
          (worker.polls + 12)
          w
  unfolding resume_thread
  Ended-resumes w here = opened_on (worker.polls + 12) f.thread.open_run w f.thread f.opened (
      Ends-more w.left w.left (suc (worker.polls + 9 + 2)) (worker.polls + 12) (omega arith) (
        resumed_on (worker.polls + 9 + 2) w f.thread (ended here) λ w1 e1.
          history_read (worker.polls + 9) w1 f.thread _ here.2.0 (at_ledger w w1 e1 here.2)
            (subst (Phase shop worker f) (sym e1) (ended here))
            λ w2 e2. settled_first w2 (subst (Ended shop worker f) (sym (e2 ∙ e1)) here)))

  committed_resumes :
      (w : Service worker)
      → lookup w.rows f.thread_id ≡ some (thread_row shop.py (committed_thread shop worker f))
      → lookup w.deliveries f.thread_id ≡ some (delivery_row shop.py (kept_turn shop worker f))
      → Fine shop worker f w.ledger
      → Goal
          (resume_thread shop worker
            (some (committed_thread shop worker f))
            f.thread_id
            (answered_of f.request)
            f.request)
          (worker.polls + 12)
          w
  unfolding resume_thread
  committed_resumes w row kept (inl held) =
      opened_on (worker.polls + 12) f.thread.open_run w (committed_thread shop worker f) f.opened (
        Ends-more w.left w.left (suc (worker.polls + 4 + 2)) (worker.polls + 12) (omega arith) (
          resumed_on (worker.polls + 4 + 2) w (committed_thread shop worker f)
            (committed row kept (inl held))
            λ w1 e1.
              history_read (worker.polls + 4) w1 (committed_thread shop worker f) _ held.0
                (at_ledger w w1 e1 held)
                (subst (Phase shop worker f) (sym e1) (committed row kept (inl held)))
                λ w2 e2.
                  settled_again w2 (at_row w w2 _ (e2 ∙ e1) row) (at_delivery w w2 _ (e2 ∙ e1) kept)
                    (at_ledger w w2 (e2 ∙ e1) held)))
  committed_resumes w row kept (inr gone) =
      opened_on (worker.polls + 12) f.thread.open_run w (committed_thread shop worker f) f.opened (
        Ends-more w.left w.left 3 (worker.polls + 12) (omega arith) (
          resumed_on 2 w (committed_thread shop worker f) (committed row kept (inr gone)) λ w1 e1.
            rw gone (
              gone_settled w1 (at_row w w1 _ e1 row) (at_delivery w w1 _ e1 kept) (
                subst (λ (s : Stores worker.Ledger). Fine shop worker f s.ledger) (sym e1)
                  (inr gone)))))

  Cleared-resumes :
      (w : Service worker)
      → Cleared shop worker f (stores w)
      → Goal
          (resume_thread shop worker
            (some (cleared_thread shop worker f))
            f.thread_id
            (answered_of f.request)
            f.request)
          (worker.polls + 12)
          w
  unfolding resume_thread resume_on
  Cleared-resumes w here =
      Ends-more w.left w.left 1 (worker.polls + 12) (omega arith)
        (delivered_again shop worker f Fault law w here)

  loaded_resumes :
      (w : Service worker) (row : Row) (thread : Thread)
      → Phase shop worker f (stores w)
      → lookup w.rows f.thread_id ≡ some row
      → row_thread shop.py row ≡ ok thread
      → ((w' : Service worker)
          → stores w' ≡ stores w
          → Goal
              (resume_thread shop worker
                (some thread)
                f.thread_id
                (answered_of f.request)
                f.request)
              (worker.polls + 12)
              w')
      → Goal (resume shop worker f.request) (worker.polls + 13) w
  unfolding resume
  loaded_resumes w row thread safe here reads rest =
      subst
        (λ (id : String).
          Goal
            (load shop.py id >>= λ found.
              resume_thread shop worker found id (answered_of f.request) f.request)
            (worker.polls + 13) w)
        (sym f.same_thread)
        (given 1 (worker.polls + 12) (worker.polls + 13) _ _ _ _ w (omega arith)
          (loads shop.py Fault _ w safe f.thread_id row thread here reads) rest)

  -- From every state that a stop may leave, the resume gives the turn, its exchange kept once and
  -- no run open, or stops in such a state again; it stops only where fewer than `polls + 13` steps
  -- were left, or where the ledger refused to delete the run.
  pub resume-Ends :
      (w : Service worker)
      → Phase shop worker f (stores w)
      → Ends Fault
          (Phase shop worker f)
          (λ v s. (v ≡ f.turn) × Cleared shop worker f s)
          w.left
          (worker.polls + 13)
          (resume shop worker f.request w)
  resume-Ends w (ended here) =
      loaded_resumes w f.row f.thread (ended here) here.0 f.reads
        λ w' e. Ended-resumes w' (subst (Ended shop worker f) (sym e) here)
  resume-Ends w (committed row kept fine) =
      loaded_resumes w _ _ (committed row kept fine) row (reads_committed shop worker f) λ w' e.
        committed_resumes w' (at_row w w' _ e row) (at_delivery w w' _ e kept)
          (subst (λ (s : Stores worker.Ledger). Fine shop worker f s.ledger) (sym e) fine)
  resume-Ends w (cleared here) =
      loaded_resumes w _ _ (cleared here) here.0 (reads_cleared shop worker f)
        λ w' e. Cleared-resumes w' (subst (Cleared shop worker f) (sym e) here)
