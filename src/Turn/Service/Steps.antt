-- ===== src/Turn/Service/Steps.antt =====
-- How each operation on the stores ends (runtime/src/turn/threads.rs, and the ledger's calls of
-- runtime/src/turn/service.rs), from a state in which it may stop.
use shimpz_brain.Base.{
  ℕ, zero, suc, ◌≡◌, refl, sym, subst, ap, ◌∙◌, Result, ok, err, inr, arith, String, Option, some,
}
use shimpz_brain.Base.Table.{Table, lookup, put}
use shimpz_brain.Errors.{state}
use shimpz_brain.Python.{Python}
use shimpz_brain.Turn.Rows.{Thread, Delivery, thread_row, row_thread, delivery_row, row_delivery}
use shimpz_brain.Turn.Threads.{
  Staged, load, save, commit, begin, stage_thread, stage_delivery, publish, delivery, of_row,
  of_delivery,
}
use shimpz_brain.Turn.World.{Row, DeliveryRow, World, Act, raise, ◌>>=◌}
use shimpz_brain.Turn.Service.Worker.{WorkerError, busy, Worker, Service}
use shimpz_brain.Turn.Service.Runs.{call, ask, after_delete, delete_within, delete_run}
use shimpz_brain.Turn.Service.Rules.{Stores, stores, Ends, returns, stops, Gives, ticked, given}

read_thread :
    (py : Python) (o : Option Row) (row : Row) (thread : Thread)
    → o ≡ some row
    → row_thread py row ≡ ok thread
    → of_row py o ≡ ok (some thread)
unfolding of_row
read_thread py o row thread here reads = ground arith

read_delivery :
    (py : Python) (o : Option DeliveryRow) (row : DeliveryRow) (kept : Delivery)
    → o ≡ some row
    → row_delivery py row ≡ ok kept
    → of_delivery py o ≡ ok (some kept)
unfolding of_delivery
read_delivery py o row kept here reads = ground arith

module _ (py : Python) {Ledger Session : Type 0} (Fault : Type 0) (Safe : Stores Ledger → Type 0)
    (w : World Ledger Session) (safe : Safe (stores w)) where
  pub loads :
      (thread_id : String) (row : Row) (thread : Thread)
      → lookup w.rows thread_id ≡ some row
      → row_thread py row ≡ ok thread
      → Ends Fault Safe (Gives (some thread) (stores w)) w.left 1 (load py thread_id w)
  unfolding load ◌>>=◌
  loads thread_id row thread here reads =
      ticked 0 _ w safe
        λ m. rw (read_thread py _ row thread here reads) (returns (refl, refl) (omega arith))

  pub delivers :
      (thread_id : String) (row : DeliveryRow) (kept : Delivery)
      → lookup w.deliveries thread_id ≡ some row
      → row_delivery py row ≡ ok kept
      → Ends Fault Safe (Gives (some kept) (stores w)) w.left 1 (delivery py thread_id w)
  unfolding delivery ◌>>=◌
  delivers thread_id row kept here reads =
      ticked 0 _ w safe
        λ m. rw (read_delivery py _ row kept here reads) (returns (refl, refl) (omega arith))

  pub saves :
      (thread_id : String) (thread : Thread)
      → Ends Fault Safe
          (Gives tt (record (stores w) { rows = put w.rows thread_id (thread_row py thread) }))
          w.left
          1
          (save py thread_id thread w)
  unfolding save ◌>>=◌
  saves thread_id thread = ticked 0 _ w safe λ m. returns (refl, refl) (omega arith)

  begins :
      Ends Fault Safe
        (Gives (record { rows = w.rows; deliveries = w.deliveries }) (stores w))
        w.left
        1
        (begin w)
  unfolding begin ◌>>=◌
  begins = ticked 0 _ w safe λ m. returns (refl, refl) (omega arith)

  thread_staged :
      (thread_id : String) (thread : Thread) (staged : Staged)
      → Ends Fault Safe
          (Gives
            (record staged { rows = put staged.rows thread_id (thread_row py thread) })
            (stores w))
          w.left
          1
          (stage_thread py thread_id thread staged w)
  unfolding stage_thread ◌>>=◌
  thread_staged thread_id thread staged = ticked 0 _ w safe λ m. returns (refl, refl) (omega arith)

  delivery_staged :
      (thread_id : String) (kept : Delivery) (staged : Staged)
      → Ends Fault Safe
          (Gives
            (record staged { deliveries = put staged.deliveries thread_id (delivery_row py kept) })
            (stores w))
          w.left
          1
          (stage_delivery py thread_id kept staged w)
  unfolding stage_delivery ◌>>=◌
  delivery_staged thread_id kept staged = ticked 0 _ w safe λ m. returns (refl, refl) (omega arith)

  published :
      (staged : Staged)
      → Ends Fault Safe
          (Gives tt (record (stores w) { rows = staged.rows; deliveries = staged.deliveries }))
          w.left
          1
          (publish staged w)
  unfolding publish ◌>>=◌
  published staged = ticked 0 _ w safe λ m. returns (refl, refl) (omega arith)

module _ (py : Python) {Ledger Session : Type 0} (Fault : Type 0) (Safe : Stores Ledger → Type 0)
    (w : World Ledger Session) (safe : Safe (stores w)) where
  abbrev still : (w' : World Ledger Session) → stores w' ≡ stores w → Safe (stores w')
  still w' same = subst Safe (sym same) safe

  -- A crash inside the transaction leaves both tables as they were.
  pub commits :
      (thread_id : String) (thread : Thread) (kept : Delivery)
      → Ends Fault Safe
          (Gives tt (record (stores w) {
            rows = put w.rows thread_id (thread_row py thread);
            deliveries = put w.deliveries thread_id (delivery_row py kept);
          }))
          w.left
          4
          (commit py thread_id thread kept w)
  unfolding commit
  commits thread_id thread kept =
      given 1 3 4 _ (stores w) begin _ w (omega arith) (begins py Fault Safe w safe) λ w1 e1.
        given 1 2 3 _ (stores w1) (stage_thread py thread_id thread _) _ w1 (omega arith)
          (thread_staged py Fault Safe w1 (still w1 e1) thread_id thread _)
          λ w2 e2.
            given 1 1 2 _ (stores w2) (stage_delivery py thread_id kept _) _ w2 (omega arith)
              (delivery_staged py Fault Safe w2 (still w2 (e2 ∙ e1)) thread_id kept _)
              λ w3 e3.
                rw (ap (λ (s : Stores Ledger). s.ledger) (sym (e3 ∙ e2 ∙ e1)))
                  (published py Fault Safe w3 (still w3 (e3 ∙ e2 ∙ e1)) _)

-- What the ledger does when a run is deleted, where it may refuse: whichever it does, what the
-- service relies on of it, `Fine`, still holds.
module _ {Ledger : Type 0} (Fault : Type 0) (Fine : Ledger → Type 0) where
  pub data Deleting : Result (Unit {0}) WorkerError × Ledger → Type 0 where
    deleted : {l : Ledger} → Fine l → Deleting (ok tt, l)
    refused : (e : WorkerError) {l : Ledger} → Fine l → Fault → Deleting (err e, l)

module _ (py : Python) (worker : Worker) (Fault : Type 0) (Safe : Stores worker.Ledger → Type 0)
    (w : Service worker) (safe : Safe (stores w)) where
  pub asks :
      {A : Type 0} (f : worker.Ledger → Result A WorkerError)
      → Ends Fault Safe (Gives (f w.ledger) (stores w)) w.left 1 (ask py worker f w)
  unfolding ask ◌>>=◌
  asks f = ticked 0 _ w safe λ m. returns (refl, refl) (omega arith)

  pub calls :
      {A : Type 0} (f : worker.Ledger → Result A WorkerError × worker.Ledger)
      → Ends Fault Safe
          (Gives (f w.ledger).0 (record (stores w) { ledger = (f w.ledger).1 }))
          w.left
          1
          (call py worker f w)
  unfolding call ◌>>=◌
  calls f = ticked 0 _ w safe λ m. returns (refl, refl) (omega arith)

module _ (py : Python) (worker : Worker) (Fault : Type 0) (Safe : Stores worker.Ledger → Type 0)
    (Fine : worker.Ledger → Type 0) (run_id : String)
    (law : (l : worker.Ledger) → Fine l → Deleting Fault Fine (worker.delete run_id l))
    (rows : Table Row) (deliveries : Table DeliveryRow)
    (safe : (l : worker.Ledger)
      → Fine l
      → Safe (record { rows = rows; deliveries = deliveries; ledger = l })) where
  abbrev Kept : Unit {0} → Stores worker.Ledger → Type 0
  Kept _ s = (s.rows ≡ rows) × (s.deliveries ≡ deliveries) × Fine s.ledger

  Kept-at :
      (l : worker.Ledger) (w : Service worker)
      → Fine l
      → stores w ≡ record { rows = rows; deliveries = deliveries; ledger = l }
      → Kept tt (stores w)
  Kept-at l w fine same = subst (Kept tt) (sym same) (refl, refl, fine)

  safe_at : (w : Service worker) → Kept tt (stores w) → Safe (stores w)
  safe_at w (same_rows, same_deliveries, fine) =
      rw (same_rows, same_deliveries) (safe w.ledger fine)

  after_deleted :
      (k : ℕ) (p : Result (Unit {0}) WorkerError × worker.Ledger)
      (retry : Act (Service worker) (Unit {0})) (w : Service worker)
      → Deleting Fault Fine p
      → stores w ≡ record { rows = rows; deliveries = deliveries; ledger = p.1 }
      → (Kept tt (stores w) → Fault → Ends Fault Safe Kept w.left k (retry w))
      → Ends Fault Safe Kept w.left k (after_delete py worker p.0 retry w)
  unfolding after_delete ◌>>=◌
  after_deleted k p retry w (deleted {l} fine) same again =
      returns (Kept-at l w fine same) (omega arith)
  after_deleted k p retry w (refused busy {l} fine fault) same again =
      again (Kept-at l w fine same) fault
  after_deleted k p retry w (refused e {l} fine fault) same again =
      stops (safe_at w (Kept-at l w fine same)) (inr fault)

  deletes_once :
      (k : ℕ) (retry : Act (Service worker) (Unit {0})) (w : Service worker)
      → Kept tt (stores w)
      → ((w' : Service worker)
          → Kept tt (stores w')
          → Fault
          → Ends Fault Safe Kept w'.left k (retry w'))
      → Ends Fault Safe Kept w.left (suc k) (
          (call py worker (worker.delete run_id) >>= λ deleted.
          after_delete py worker deleted retry)
            w)
  deletes_once k retry w (same_rows, same_deliveries, fine) again =
      given 1 k (suc k) _ _ _ _ w (omega arith)
        (calls py worker Fault Safe w (safe_at w (same_rows, same_deliveries, fine))
          (worker.delete run_id))
        λ w' e.
          after_deleted k (worker.delete run_id w.ledger) retry w' (law w.ledger fine)
            (e ∙ rw (same_rows, same_deliveries)) (again w')

  deletes_within :
      (polls : ℕ) (w : Service worker)
      → Kept tt (stores w)
      → Ends Fault Safe Kept w.left (suc polls) (delete_within py worker polls run_id w)
  unfolding delete_within ◌>>=◌
  deletes_within zero w kept =
      deletes_once 0 (raise state) w kept λ w' kept' fault. stops (safe_at w' kept') (inr fault)
  deletes_within (suc polls) w kept =
      deletes_once (suc polls) (delete_within py worker polls run_id) w kept
        λ w' kept' _. deletes_within polls w' kept'

  -- Deleting a run, whatever the ledger refuses.
  pub deletes :
      (w : Service worker)
      → Kept tt (stores w)
      → Ends Fault Safe Kept w.left (suc worker.polls) (delete_run py worker run_id w)
  unfolding delete_run
  deletes w kept = deletes_within worker.polls w kept
