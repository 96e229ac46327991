-- ===== src/Turn/Threads.antt =====
-- runtime/src/turn/threads.rs: each thread's kept history, its scope and its open run, and the
-- delivery of its last committed turn, as strict JSON text in two SQLite tables. A transaction
-- stages its writes, and its commit publishes them; every statement is a step that may fail.
use shimpz_brain.Base.{String, Option, none, some, if◌then◌else◌, Result, ok, err}
use shimpz_brain.Base.Table.{Table, lookup, put, remove}
use shimpz_brain.Errors.{BrainError, state}
use shimpz_brain.Python.{Python}
use shimpz_brain.Turn.Rows.{Thread, Delivery, thread_row, row_thread, delivery_row, row_delivery}
use shimpz_brain.Turn.World.{
  Row, DeliveryRow, World, Act, pure, raise, lift, gets, modify, tick, ◌>>=◌, ◌>>◌,
}

-- What a transaction has written so far.
pub record Staged : Type 0 where
  pub rows : Table Row
  pub deliveries : Table DeliveryRow

module _ {Ledger Session : Type 0} where
  unfoldable pub begin : Act (World Ledger Session) Staged
  begin = do tick; gets λ w. record { rows = w.rows; deliveries = w.deliveries }

  unfoldable pub publish : Staged → Act (World Ledger Session) (Unit {0})
  publish staged = do
    tick
    modify λ w. record w { rows = staged.rows; deliveries = staged.deliveries }

module _ (py : Python) where
  unfoldable pub of_row : Option Row → Result (Option Thread) BrainError
  of_row none = ok none
  of_row (some row) = elim (row_thread py row) [ ok thread ↦ ok (some thread) | err e ↦ err e ]

  unfoldable pub of_delivery : Option DeliveryRow → Result (Option Delivery) BrainError
  of_delivery none = ok none
  of_delivery (some row) = elim (row_delivery py row) [ ok kept ↦ ok (some kept) | err e ↦ err e ]

  module _ {Ledger Session : Type 0} where
    unfoldable pub load : String → Act (World Ledger Session) (Option Thread)
    load thread_id = do tick; row ← gets λ w. lookup w.rows thread_id; lift (of_row row)

    unfoldable pub save : String → Thread → Act (World Ledger Session) (Unit {0})
    save thread_id thread = do
      tick
      modify λ w. record w { rows = put w.rows thread_id (thread_row py thread) }

    unfoldable pub stage_thread : String → Thread → Staged → Act (World Ledger Session) Staged
    stage_thread thread_id thread staged = do
      tick
      pure (record staged { rows = put staged.rows thread_id (thread_row py thread) })

    unfoldable pub stage_delivery : String → Delivery → Staged → Act (World Ledger Session) Staged
    stage_delivery thread_id delivery staged = do
      tick
      pure (record staged {
        deliveries = put staged.deliveries thread_id (delivery_row py delivery);
      })

    -- A thread and its turn just committed, in one transaction.
    unfoldable pub commit : String → Thread → Delivery → Act (World Ledger Session) (Unit {0})
    commit thread_id thread delivery = do
      staged ← begin
      staged ← stage_thread thread_id thread staged
      staged ← stage_delivery thread_id delivery staged
      publish staged

    unfoldable pub delivery : String → Act (World Ledger Session) (Option Delivery)
    delivery thread_id = do
      tick
      row ← gets λ w. lookup w.deliveries thread_id
      lift (of_delivery row)

module _ {Ledger Session : Type 0} where
  -- Empties the write-ahead log, which a reader may keep.
  unfoldable pub truncate_log : Act (World Ledger Session) (Unit {0})
  truncate_log = do tick; kept ← gets λ w. w.log_kept; if kept then raise state else pure tt

  unfoldable pub delete : String → Act (World Ledger Session) (Unit {0})
  delete thread_id = do
    tick
    modify λ w. record w { rows = remove w.rows thread_id }
    tick
    modify λ w. record w { deliveries = remove w.deliveries thread_id }
    truncate_log
