-- ===== src/Turn/Service/Erasure.antt =====
-- Deleting a thread erases it: runtime/src/turn/service.rs, `delete_thread`, and
-- runtime/src/turn/threads.rs, `delete`.
use shimpz_brain.Base.{
  ℕ, suc, zero, ◌+◌, ◌≡◌, refl, ap, ◌∙◌, Result, ok, err, arith, ◌⊎◌, inl, inr, String, str_eq,
  Option, none, some, Bool, true, false, if◌then◌else◌,
}
use shimpz_brain.Base.Table.{Table, lookup, remove, lookup-remove}
use shimpz_brain.Errors.{state}
use shimpz_brain.Python.{Python}
use shimpz_brain.Turn.Prepare.Inputs.{Workshop}
use shimpz_brain.Turn.Rows.{Thread, or_state, row_thread}
use shimpz_brain.Turn.Threads.{load, of_row, delete, truncate_log}
use shimpz_brain.Turn.World.{Row, DeliveryRow, World, pure, raise, lift, tick, tick_from, ◌>>=◌}
use shimpz_brain.Turn.Service.Worker.{WorkerError, Worker, Service}
use shimpz_brain.Turn.Service.Requests.{delete_run_of, delete_open, delete_thread}
use shimpz_brain.Turn.Service.Rules.{
  Stores, Ends, returns, stops, ticked, bound, pured, Ends-more, Ends-good,
}
use shimpz_brain.Turn.Service.Steps.{Deleting, deleted, refused, deletes}
use shimpz_brain.Turn.Service.Stops.{Ends-good_of}

abbrev Any : {Ledger : Type 0} → Stores Ledger → Type 0
Any s = Unit

-- An action that leaves the rows and the deliveries as they are, whatever becomes of it.
abbrev Keeps : {Ledger A : Type 0} → Table Row → Table DeliveryRow → A → Stores Ledger → Type 0
Keeps rows deliveries a s = (s.rows ≡ rows) × (s.deliveries ≡ deliveries)

module _ {Ledger Session : Type 0} where
  truncated :
      (kept : Bool) (w : World Ledger Session)
      → Ends
          (Unit {0})
          Any
          (Keeps w.rows w.deliveries)
          w.left
          0
          ((if kept then raise state else pure tt) w)
  unfolding ◌>>=◌
  truncated true w = stops tt (inr tt)
  truncated false w = returns (refl, refl) (omega arith)

  delete_erases :
      (id : String) (w : World Ledger Session)
      → Ends
          (Unit {0})
          Any
          (λ (_ : Unit {0}). Keeps {A = Unit {0}} (remove w.rows id) (remove w.deliveries id) tt)
          w.left
          3
          (delete id w)
  unfolding delete truncate_log ◌>>=◌
  delete_erases id w = ticked 2 _ w tt λ m.
      ticked 1 _ (record w { rows = remove w.rows id; left = m }) tt
        λ m1.
          ticked 0 _
            (record w { rows = remove w.rows id; deliveries = remove w.deliveries id; left = m1 })
            tt
            λ m2.
              truncated w.log_kept (record w {
                rows = remove w.rows id;
                deliveries = remove w.deliveries id;
                left = m2;
              })

  tick_from_keeps :
      (n : ℕ) (w : World Ledger Session) (rows : Table Row) (deliveries : Table DeliveryRow)
      → w.rows ≡ rows
      → w.deliveries ≡ deliveries
      → Ends
          (Unit {0})
          Any
          (λ (_ : Unit {0}). Keeps {A = Unit {0}} rows deliveries tt)
          n
          1
          (tick_from n w)
  tick_from_keeps zero w rows deliveries same_rows same_deliveries = stops tt (inr tt)
  tick_from_keeps (suc n) w rows deliveries same_rows same_deliveries =
      returns (same_rows, same_deliveries) (omega arith)

  tick_keeps :
      (w : World Ledger Session) (rows : Table Row) (deliveries : Table DeliveryRow)
      → w.rows ≡ rows
      → w.deliveries ≡ deliveries
      → Ends
          (Unit {0})
          Any
          (λ (_ : Unit {0}). Keeps {A = Unit {0}} rows deliveries tt)
          w.left
          1
          (tick w)
  unfolding ◌>>=◌
  tick_keeps w rows deliveries same_rows same_deliveries =
      tick_from_keeps w.left w rows deliveries same_rows same_deliveries

or_state_cases :
    {A : Type 0} (o : Option A) → (or_state o ≡ err state) ⊎ ((a : A) × (or_state o ≡ ok a))
unfolding or_state
or_state_cases none = inl refl
or_state_cases (some a) = inr (a, refl)

row_cases :
    (py : Python) (row : Row)
    → (row_thread py row ≡ err state) ⊎ ((t : Thread) × (row_thread py row ≡ ok t))
unfolding row_thread
row_cases py row = or_state_cases _

of_row_err :
    (py : Python) (row : Row) → row_thread py row ≡ err state → of_row py (some row) ≡ err state
unfolding of_row
of_row_err py row h = ground arith

of_row_ok :
    (py : Python) (row : Row) (t : Thread)
    → row_thread py row ≡ ok t
    → of_row py (some row) ≡ ok (some t)
unfolding of_row
of_row_ok py row t h = ground arith

module _ (py : Python) {Ledger Session : Type 0} where
  row_read :
      (o : Option Row) (w : World Ledger Session)
      → Ends (Unit {0}) Any (Keeps w.rows w.deliveries) w.left 0 (lift (of_row py o) w)
  unfolding of_row ◌>>=◌
  row_read none w = returns (refl, refl) (omega arith)
  row_read (some row) w = elim (row_cases py row) [
    | inl fails ↦ rw (of_row_err py row fails) (stops tt (inr tt))
    | inr (t, reads) ↦ rw (of_row_ok py row t reads) (returns (refl, refl) (omega arith))
  ]

  load_keeps :
      (id : String) (w : World Ledger Session)
      → Ends (Unit {0}) Any (Keeps w.rows w.deliveries) w.left 1 (load py id w)
  unfolding load ◌>>=◌
  load_keeps id w = ticked 0 _ w tt λ m. row_read (lookup w.rows id) (record w { left = m })

delete_law :
    {Ledger : Type 0} (p : Result (Unit {0}) WorkerError × Ledger)
    → Deleting (Unit {0}) (λ _. Unit {0}) p
delete_law (ok tt, l) = deleted tt
delete_law (err e, l) = refused e tt tt

module _ (shop : Workshop) (worker : Worker) where
  run_deleted :
      (o : Option String) (w : Service worker)
      → Ends
          (Unit {0})
          Any
          (Keeps w.rows w.deliveries)
          w.left
          (worker.polls + 2)
          (delete_run_of shop worker o w)
  unfolding delete_run_of
  run_deleted none w =
      Ends-more w.left w.left 0 (worker.polls + 2) (omega arith) (pured tt w (refl, refl))
  run_deleted (some run_id) w =
      Ends-more w.left w.left (suc worker.polls + 1) (worker.polls + 2) (omega arith) (
        bound (suc worker.polls) 1 _ _ w
          (deletes shop.py worker (Unit {0}) Any (λ _. Unit {0}) run_id
            (λ l _. delete_law (worker.delete run_id l)) w.rows w.deliveries (λ l _. tt) w
            (refl, refl, tt))
          λ _ w1 (rows, deliveries, _). tick_keeps w1 w.rows w.deliveries rows deliveries)

  open_deleted :
      (o : Option Thread) (w : Service worker)
      → Ends
          (Unit {0})
          Any
          (Keeps w.rows w.deliveries)
          w.left
          (worker.polls + 2)
          (delete_open shop worker o w)
  unfolding delete_open
  open_deleted none w =
      Ends-more w.left w.left 0 (worker.polls + 2) (omega arith) (pured tt w (refl, refl))
  open_deleted (some thread) w = run_deleted thread.open_run w

  thread_deleted :
      (id : String) (w : Service worker)
      → Ends
          (Unit {0})
          Any
          (λ (_ : Unit {0}). Keeps {A = Unit {0}} (remove w.rows id) (remove w.deliveries id) tt)
          w.left
          (worker.polls + 6)
          (delete_thread shop worker id w)
  unfolding delete_thread
  thread_deleted id w =
      Ends-more w.left w.left (1 + (worker.polls + 2 + 3)) (worker.polls + 6) (omega arith) (
        bound 1 (worker.polls + 2 + 3) _ _ w (load_keeps shop.py id w) λ o w1 (rows1, deliveries1).
          bound (worker.polls + 2) 3 _ _ w1 (open_deleted o w1) λ _ w2 (rows2, deliveries2).
            Ends-good (delete_erases id w2) λ _ s (rows3, deliveries3). (
              rows3 ∙ ap (λ (t : Table Row). remove t id) (rows2 ∙ rows1),
              deliveries3 ∙ ap (λ (t : Table DeliveryRow). remove t id) (deliveries2 ∙ deliveries1),
            ))

  -- A deletion that succeeds erases the thread, its history and its kept turn, whatever they were,
  -- and nothing of any other thread.
  pub delete_thread_erases :
      (id : String) (w : Service worker)
      → (delete_thread shop worker id w).0 ≡ ok tt
      → let w' = (delete_thread shop worker id w).1 in
        ((name : String)
          → lookup w'.rows name ≡ (if str_eq id name then none else lookup w.rows name))
        × ((name : String)
            → lookup w'.deliveries name
              ≡ (if str_eq id name then none else lookup w.deliveries name))
  delete_thread_erases id w succeeds =
      let (rows, deliveries) =
        Ends-good_of w.left (worker.polls + 6) (delete_thread shop worker id w) tt
          (thread_deleted id w) succeeds in
      (
        λ name. ap (λ (t : Table Row). lookup t name) rows ∙ lookup-remove w.rows id name,
        λ name.
            ap (λ (t : Table DeliveryRow). lookup t name) deliveries
            ∙ lookup-remove w.deliveries id name,
      )
