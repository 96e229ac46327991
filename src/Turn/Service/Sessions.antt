-- ===== src/Turn/Service/Sessions.antt =====
-- A request's provider key and attachments leave with it: runtime/src/turn/service.rs, `run`, which
-- installs and removes the session (runtime/src/turn/host.rs).
use shimpz_brain.Base.{
  ℕ, zero, suc, ◌≡◌, refl, ◌∙◌, Result, ok, err, String, Option, none, some, List, Bool, true,
  false, if◌then◌else◌,
}
use shimpz_brain.Base.Table.{Table}
use shimpz_brain.Errors.{BrainError}
use shimpz_brain.Python.{Python}
use shimpz_brain.Turn.Rows.{Thread, Delivery}
use shimpz_brain.Turn.Threads.{
  load, save, begin, stage_thread, stage_delivery, publish, commit, delivery, truncate_log, delete,
}
use shimpz_brain.Json.Types.{Value}
use shimpz_brain.Turn.State.{Failed}
use shimpz_brain.Turn.Prepare.Inputs.{TurnSession}
use shimpz_brain.Turn.Service.Worker.{WorkerError, busy, Outcome, done, Worker, Service}
use shimpz_brain.Turn.Service.Runs.{
  call, ask, after_delete, delete_within, delete_run, reconcile_open, reconcile, pending_requests,
  input, suspended, commit_turn, completed_turn, run_outcome,
}
use shimpz_brain.Turn.World.{
  Row, DeliveryRow, World, Act, pure, raise, lift, gets, modify, tick, tick_from, continue, ◌>>=◌,
}

-- However `m` ends, the sessions `held` are installed after it where they were before.
pub record Leaves {Ledger Session A : Type 0} (held : Table Session)
    (m : Act (World Ledger Session) A) : Type 0 where
  pub at : (w : World Ledger Session) → w.sessions ≡ held → (m w).1.sessions ≡ held

module _ {Ledger Session A : Type 0} {held : Table Session} where
  pub Leaves-pure : (a : A) → Leaves {Ledger = Ledger} {Session = Session} held (pure a)
  unfolding ◌>>=◌
  Leaves-pure a = record { at = λ w h. h }

  pub Leaves-raise :
      (e : BrainError) → Leaves {Ledger = Ledger} {Session = Session} {A = A} held (raise e)
  unfolding ◌>>=◌
  Leaves-raise e = record { at = λ w h. h }

  pub Leaves-lift :
      (r : Result A BrainError) → Leaves {Ledger = Ledger} {Session = Session} held (lift r)
  unfolding ◌>>=◌
  Leaves-lift r = record { at = λ w h. h }

  pub Leaves-gets : (f : World Ledger Session → A) → Leaves held (gets f)
  unfolding ◌>>=◌
  Leaves-gets f = record { at = λ w h. h }

  pub Leaves-if :
      (b : Bool) (m n : Act (World Ledger Session) A)
      → Leaves held m
      → Leaves held n
      → Leaves held (if b then m else n)
  Leaves-if true m n km kn = km
  Leaves-if false m n km kn = kn

module _ {Ledger Session : Type 0} {held : Table Session} where
  pub Leaves-modify :
      (f : World Ledger Session → World Ledger Session)
      → ((w : World Ledger Session) → (f w).sessions ≡ w.sessions)
      → Leaves held (modify f)
  unfolding ◌>>=◌
  Leaves-modify f same = record { at = λ w h. same w ∙ h }

  pub Leaves-rows :
      (g : World Ledger Session → Table Row)
      → Leaves held (modify λ (w : World Ledger Session). record w { rows = g w })
  Leaves-rows g = Leaves-modify _ λ w. refl

  pub Leaves-deliveries :
      (g : World Ledger Session → Table DeliveryRow)
      → Leaves held (modify λ (w : World Ledger Session). record w { deliveries = g w })
  Leaves-deliveries g = Leaves-modify _ λ w. refl

  pub Leaves-ledger :
      (g : World Ledger Session → Ledger)
      → Leaves held (modify λ (w : World Ledger Session). record w { ledger = g w })
  Leaves-ledger g = Leaves-modify _ λ w. refl

  pub Leaves-both :
      (g : World Ledger Session → Table Row) (h : World Ledger Session → Table DeliveryRow)
      → Leaves held (modify λ (w : World Ledger Session). record w { rows = g w; deliveries = h w })
  Leaves-both g h = Leaves-modify _ λ w. refl

  tick_keeps :
      (n : ℕ) (w : World Ledger Session) → w.sessions ≡ held → (tick_from n w).1.sessions ≡ held
  tick_keeps zero w h = h
  tick_keeps (suc n) w h = h

  pub Leaves-tick : Leaves held (tick {Ledger = Ledger} {Session = Session})
  unfolding ◌>>=◌
  Leaves-tick = record { at = λ w h. tick_keeps w.left w h }

module _ {Ledger Session A B : Type 0} {held : Table Session} where
  continue_keeps :
      (r : Result A BrainError) (f : A → Act (World Ledger Session) B) (w : World Ledger Session)
      → ((a : A) → Leaves held (f a))
      → w.sessions ≡ held
      → (continue r f w).1.sessions ≡ held
  continue_keeps (ok a) f w kf h = (kf a).at w h
  continue_keeps (err e) f w kf h = h

  pub Leaves-bind :
      (m : Act (World Ledger Session) A) (f : A → Act (World Ledger Session) B)
      → Leaves held m
      → ((a : A) → Leaves held (f a))
      → Leaves held (m >>= f)
  unfolding ◌>>=◌
  Leaves-bind m f km kf = record {
    at = λ w h. let (r, w') = m w in continue_keeps r f w' kf (km.at w h);
  }

pub ruleset leaves_rules = (
  Leaves-pure, Leaves-raise, Leaves-lift, Leaves-gets, Leaves-if, Leaves-tick, Leaves-rows,
  Leaves-deliveries, Leaves-ledger, Leaves-both, Leaves-bind,
)

module _ (py : Python) {Ledger Session : Type 0} {held : Table Session} where
  pub load-Leaves : (id : String) → Leaves {Ledger = Ledger} {Session = Session} held (load py id)
  unfolding load
  load-Leaves id = search leaves_rules

  pub delivery-Leaves :
      (id : String) → Leaves {Ledger = Ledger} {Session = Session} held (delivery py id)
  unfolding delivery
  delivery-Leaves id = search leaves_rules

  pub save-Leaves :
      (id : String) (thread : Thread)
      → Leaves {Ledger = Ledger} {Session = Session} held (save py id thread)
  unfolding save
  save-Leaves id thread = search leaves_rules

  pub commit-Leaves :
      (id : String) (thread : Thread) (kept : Delivery)
      → Leaves {Ledger = Ledger} {Session = Session} held (commit py id thread kept)
  unfolding commit begin stage_thread stage_delivery publish
  commit-Leaves id thread kept = search leaves_rules

module _ {Ledger Session : Type 0} {held : Table Session} where
  pub delete-Leaves : (id : String) → Leaves {Ledger = Ledger} {Session = Session} held (delete id)
  unfolding delete truncate_log
  delete-Leaves id = search leaves_rules depth 12

module _ (py : Python) (worker : Worker) {held : Table TurnSession} where
  pub call-Leaves :
      {A : Type 0} (f : worker.Ledger → Result A WorkerError × worker.Ledger)
      → Leaves held (call py worker f)
  unfolding call
  call-Leaves f = search leaves_rules

  pub ask-Leaves :
      {A : Type 0} (f : worker.Ledger → Result A WorkerError) → Leaves held (ask py worker f)
  unfolding ask
  ask-Leaves f = search leaves_rules

  pub after_delete-Leaves :
      (r : Result (Unit {0}) WorkerError) (retry : Act (Service worker) (Unit {0}))
      → Leaves held retry
      → Leaves held (after_delete py worker r retry)
  unfolding after_delete
  after_delete-Leaves (ok _) retry k = search leaves_rules
  after_delete-Leaves (err busy) retry k = k
  after_delete-Leaves (err _) retry k = search leaves_rules

  pub delete_within-Leaves :
      (polls : ℕ) (run_id : String) → Leaves held (delete_within py worker polls run_id)
  unfolding delete_within
  delete_within-Leaves zero run_id = search (leaves_rules, call-Leaves, after_delete-Leaves)
  delete_within-Leaves (suc polls) run_id =
      Leaves-bind _ _ (call-Leaves _)
        λ r. after_delete-Leaves r _ (delete_within-Leaves polls run_id)

  pub delete_run-Leaves : (run_id : String) → Leaves held (delete_run py worker run_id)
  unfolding delete_run
  delete_run-Leaves run_id = delete_within-Leaves worker.polls run_id

  pub reconcile_open-Leaves :
      (o : Option String) (id : String) (thread : Thread)
      → Leaves held (reconcile_open py worker o id thread)
  unfolding reconcile_open
  reconcile_open-Leaves none id thread = search leaves_rules
  reconcile_open-Leaves (some run_id) id thread =
      search (leaves_rules, delete_run-Leaves, save-Leaves)

  pub reconcile-Leaves :
      (id : String) (thread : Thread) → Leaves held (reconcile py worker id thread)
  unfolding reconcile
  reconcile-Leaves id thread = reconcile_open-Leaves thread.open_run id thread

  pub pending-Leaves : (run_id : String) → Leaves held (pending_requests py worker run_id)
  unfolding pending_requests
  pending-Leaves run_id = search (leaves_rules, ask-Leaves)

  pub input-Leaves : (run_id : String) → Leaves held (input py worker run_id)
  unfolding input
  input-Leaves run_id = search (leaves_rules, ask-Leaves)

  pub suspended-Leaves : (run_id : String) → Leaves held (suspended py worker run_id)
  unfolding suspended
  suspended-Leaves run_id = search (leaves_rules, pending-Leaves)

  pub commit_turn-Leaves :
      (id : String) (thread : Thread) (run_id : String) (answered : List String) (v : Value)
      → Leaves held (commit_turn py worker id thread run_id answered v)
  unfolding commit_turn
  commit_turn-Leaves id thread run_id answered v =
      search (leaves_rules, commit-Leaves, reconcile-Leaves) depth 12

  pub completed_turn-Leaves :
      (o : Option Failed) (id : String) (thread : Thread) (run_id : String) (answered : List String)
      (v : Value)
      → Leaves held (completed_turn py worker o id thread run_id answered v)
  unfolding completed_turn
  completed_turn-Leaves none id thread run_id answered v =
      commit_turn-Leaves id thread run_id answered v
  completed_turn-Leaves (some failed) id thread run_id answered v =
      search (leaves_rules, reconcile-Leaves)

  pub run_outcome-Leaves :
      (id : String) (thread : Thread) (run_id : String) (answered : List String) (outcome : Outcome)
      → Leaves held (run_outcome py worker id thread run_id answered outcome)
  unfolding run_outcome
  run_outcome-Leaves id thread run_id answered (done j) =
      search (leaves_rules, completed_turn-Leaves)
  run_outcome-Leaves id thread run_id answered _ = search (leaves_rules, reconcile-Leaves)
