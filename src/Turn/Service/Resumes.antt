-- ===== src/Turn/Service/Resumes.antt =====
-- A resume of a run that ended answers with its turn from every state that a stopped resume leaves:
-- runtime/src/turn/service.rs, `resume`.
use shimpz_brain.Base.{
  suc, ◌+◌, ◌≡◌, refl, sym, subst, ◌∙◌, inl, arith, String, Option, some, eq_refl,
}
use shimpz_brain.Base.Table.{Table, lookup, put, lookup-put}
use shimpz_brain.Json.Types.{Value}
use shimpz_brain.Turn.Prepare.Inputs.{Workshop}
use shimpz_brain.Turn.Rows.{or_state, thread_row, delivery_row}
use shimpz_brain.Turn.Threads.{save}
use shimpz_brain.Turn.World.{pure, tick, ◌>>◌}
use shimpz_brain.Turn.Service.Worker.{done, Worker, Service}
use shimpz_brain.Turn.Service.Runs.{
  commit_turn, run_outcome, completed_turn, delete_run, reconcile, reconcile_open,
}
use shimpz_brain.Turn.Service.Requests.{answered_of, delivered}
use shimpz_brain.Turn.Service.Rules.{
  Stores, stores, Ends, ticked, bound, given, pured, lifted, lift_ends, Ends-good, Ends-more,
}
use shimpz_brain.Turn.Service.Steps.{Deleting, delivers, saves, commits, deletes}
use shimpz_brain.Turn.Service.Reads.{reads_kept, delivers_kept}
use shimpz_brain.Turn.Service.Recovery.{
  Finished, committed_thread, cleared_thread, kept_turn, Ended, Fine, Cleared, Phase, ended,
  committed, cleared,
}

put_self {ℓ} :
    {V : Type ℓ} (table : Table V) (key : String) (v : V) → lookup (put table key v) key ≡ some v
put_self table key v = lookup-put table key key v ∙ rw (eq_refl key)

module _ (shop : Workshop) (worker : Worker) (f : Finished shop) (Fault : Type 0)
    (law : (l : worker.Ledger)
      → Fine shop worker f l
      → Deleting Fault (Fine shop worker f) (worker.delete f.run_id l)) where
  abbrev pub Safe : Stores worker.Ledger → Type 0
  Safe = Phase shop worker f

  abbrev pub Done : Value → Stores worker.Ledger → Type 0
  Done v s = (v ≡ f.turn) × Cleared shop worker f s

  -- The kept delivery, read again.
  pub delivered_again :
      (w : Service worker)
      → Cleared shop worker f (stores w)
      → Ends Fault Safe Done w.left 1 (delivered shop worker f.thread_id (answered_of f.request) w)
  unfolding delivered
  delivered_again w here =
      given 1 0 1 _ (stores w) _ _ w (omega arith)
        (delivers shop.py Fault Safe w (cleared here) f.thread_id _ _ here.1
          (reads_kept shop worker f))
        λ w' e.
          lift_ends f.turn _ w' (delivers_kept shop worker f)
            (refl, subst (Cleared shop worker f) (sym e) here)

  pub let_go :
      (w : Service worker)
      → lookup w.deliveries f.thread_id ≡ some (delivery_row shop.py (kept_turn shop worker f))
      → Safe (stores w)
      → Ends Fault Safe
          (λ _ s. Cleared shop worker f s)
          w.left
          1
          (save shop.py f.thread_id (cleared_thread shop worker f) w)
  let_go w kept safe =
      Ends-good (saves shop.py Fault Safe w safe f.thread_id (cleared_thread shop worker f))
        λ a s e. subst (Cleared shop worker f) (sym e.1) (put_self w.rows f.thread_id _, kept)

  deleted_open :
      (w : Service worker)
      → lookup w.rows f.thread_id ≡ some (thread_row shop.py (committed_thread shop worker f))
      → lookup w.deliveries f.thread_id ≡ some (delivery_row shop.py (kept_turn shop worker f))
      → Fine shop worker f w.ledger
      → Ends Fault Safe
          (λ _ s. Cleared shop worker f s)
          w.left
          (worker.polls + 3)
          (reconcile_open shop.py worker
            (some f.run_id)
            f.thread_id
            (committed_thread shop worker f)
            w)
  unfolding reconcile_open
  deleted_open w row kept fine =
      Ends-more w.left w.left (suc worker.polls + 2) (worker.polls + 3) (omega arith) (
        bound (suc worker.polls) 2 (delete_run shop.py worker f.run_id) _ w
          (deletes shop.py worker Fault Safe (Fine shop worker f) f.run_id law w.rows w.deliveries
            (λ l fine'. committed row kept fine') w (refl, refl, fine))
          λ _ w1 (rows, deliveries, fine1).
            let row1 : lookup w1.rows f.thread_id
                ≡ some (thread_row shop.py (committed_thread shop worker f)) =
              rw rows row in
            let kept1 : lookup w1.deliveries f.thread_id
                ≡ some (delivery_row shop.py (kept_turn shop worker f)) =
              rw deliveries kept in
            let safe1 : Safe (stores w1) = committed row1 kept1 fine1 in
            ticked 1 _ w1 safe1 λ m. Ends-more _ _ 1 1 (omega arith) (
              bound 1 0 (save shop.py f.thread_id (cleared_thread shop worker f)) _
                (record w1 { left = m }) (let_go (record w1 { left = m }) kept1 safe1)
                λ _ w2 here. pured _ w2 here))

  -- The exchange is committed: the run is deleted and the thread lets go of it.
  reconciled :
      (w : Service worker)
      → lookup w.rows f.thread_id ≡ some (thread_row shop.py (committed_thread shop worker f))
      → lookup w.deliveries f.thread_id ≡ some (delivery_row shop.py (kept_turn shop worker f))
      → Fine shop worker f w.ledger
      → Ends Fault Safe
          (λ _ s. Cleared shop worker f s)
          w.left
          (worker.polls + 3)
          (reconcile shop.py worker f.thread_id (committed_thread shop worker f) w)
  unfolding reconcile
  reconciled w row kept fine =
      subst
        (λ (open_run : Option String).
          Ends Fault Safe (λ _ s. Cleared shop worker f s) w.left (worker.polls + 3)
            (reconcile_open shop.py worker open_run f.thread_id (committed_thread shop worker f) w))
        (sym f.opened) (deleted_open w row kept fine)

  pub delivered_after :
      (w : Service worker)
      → lookup w.rows f.thread_id ≡ some (thread_row shop.py (committed_thread shop worker f))
      → lookup w.deliveries f.thread_id ≡ some (delivery_row shop.py (kept_turn shop worker f))
      → Fine shop worker f w.ledger
      → Ends Fault Safe Done w.left (worker.polls + 4) (
          (reconcile shop.py worker f.thread_id (committed_thread shop worker f)
              >> delivered shop worker f.thread_id (answered_of f.request))
            w)
  delivered_after w row kept fine =
      Ends-more w.left w.left (worker.polls + 3 + 1) (worker.polls + 4) (omega arith) (
        bound (worker.polls + 3) 1 _ _ w (reconciled w row kept fine)
          λ _ w1 here. delivered_again w1 here)

  -- The exchange and its turn are in the stores: the rest of the commit.
  commit_closed :
      (w : Service worker)
      → lookup w.rows f.thread_id ≡ some (thread_row shop.py (committed_thread shop worker f))
      → lookup w.deliveries f.thread_id ≡ some (delivery_row shop.py (kept_turn shop worker f))
      → Fine shop worker f w.ledger
      → Ends Fault Safe Done w.left (worker.polls + 4) (
          (tick
              >> (reconcile shop.py worker f.thread_id (committed_thread shop worker f)
                  >> pure f.turn))
            w)
  commit_closed w row kept fine =
      Ends-more w.left w.left (suc (worker.polls + 3)) (worker.polls + 4) (omega arith) (
        ticked (worker.polls + 3) _ w (committed row kept fine) λ m.
          Ends-more m m (worker.polls + 3 + 0) (worker.polls + 3) (omega arith) (
            bound (worker.polls + 3) 0 _ _ (record w { left = m })
              (reconciled (record w { left = m }) row kept fine)
              λ _ w1 here. pured f.turn w1 (refl, here)))

  -- The first commit of the exchange.
  turn_committed :
      (w : Service worker)
      → Ended shop worker f (stores w)
      → Ends Fault Safe Done w.left (worker.polls + 9) (
          commit_turn shop.py worker f.thread_id f.thread f.run_id
            (answered_of f.request)
            f.completed
            w)
  unfolding commit_turn or_state
  turn_committed w here =
      let c = committed_thread shop worker f in
      let d = kept_turn shop worker f in
      lifted (worker.polls + 9) f.messages _ _ w (rw f.history) (
        lifted (worker.polls + 9) f.turn _ _ w (rw f.reply) (
          Ends-more w.left w.left (suc (worker.polls + 8)) (worker.polls + 9) (omega arith) (
            ticked (worker.polls + 8) _ w (ended here) λ m.
              given 4 (worker.polls + 4) (worker.polls + 8) tt _ _ _ (record w { left = m })
                (omega arith)
                (commits shop.py Fault Safe (record w { left = m }) (ended here) f.thread_id c d)
                λ w1 e.
                  commit_closed w1
                    (subst
                      (λ (s : Stores worker.Ledger).
                        lookup s.rows f.thread_id ≡ some (thread_row shop.py c))
                      (sym e) (put_self w.rows f.thread_id _))
                    (subst
                      (λ (s : Stores worker.Ledger).
                        lookup s.deliveries f.thread_id ≡ some (delivery_row shop.py d))
                      (sym e) (put_self w.deliveries f.thread_id _))
                    (subst (λ (s : Stores worker.Ledger). Fine shop worker f s.ledger) (sym e)
                      (inl here.2)))))

  pub outcome_committed :
      (w : Service worker)
      → Ended shop worker f (stores w)
      → Ends Fault Safe Done w.left (worker.polls + 9) (
          run_outcome shop.py worker f.thread_id f.thread f.run_id
            (answered_of f.request)
            (done f.journal)
            w)
  unfolding run_outcome or_state completed_turn
  outcome_committed w here =
      lifted (worker.polls + 9) f.completed _ _ w (rw f.outcome)
        (rw f.success (turn_committed w here))
