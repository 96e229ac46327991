-- ===== src/Turn/Service/Worker.antt =====
-- Holdpoint's worker as the turn service calls it (runtime/src/turn/service.rs): a parameter over
-- its ledger. `drive` stands for one drive of a run under its installed session, with what the
-- watching thread's `cancel` does meanwhile.
use shimpz_brain.Base.{ℕ, String, Option, List, Result}
use shimpz_brain.Turn.Run.{Journal}
use shimpz_brain.Turn.Prepare.Inputs.{TurnSession}
use shimpz_brain.Turn.Prepare.Resume.{Event, PendingRequest}
use shimpz_brain.Turn.World.{World}

-- `holdpoint::Error`.
pub data WorkerError : Type 0 where
  contract conflict wrong_state busy limit lease_lost storage : WorkerError

-- `holdpoint::Outcome`: the other ends of a run are one to the service.
pub data Outcome : Type 0 where
  done : Journal → Outcome
  cancelled ended_otherwise : Outcome

-- `Wait::Until` and `Wait::Executor` are `timed`, `Wait::Authority` and `Wait::Shutdown` `blocked`.
pub data Driven : Type 0 where
  ended : Outcome → Driven
  deferred timed blocked : Driven

pub record Worker : Type 1 where
  pub Ledger : Type 0
  pub submit : String → Journal → Ledger → Result (Unit {0}) WorkerError × Ledger
  pub delete : String → Ledger → Result (Unit {0}) WorkerError × Ledger
  pub resolve : String → ℕ → Journal → Ledger → Result (Unit {0}) WorkerError × Ledger
  pub drive : String → Option TurnSession → Ledger → Result Driven WorkerError × Ledger
  pub pending : String → Ledger → Result (List PendingRequest) WorkerError
  pub history : String → Ledger → Result (List Event) WorkerError
  pub result : String → Ledger → Result (Option Outcome) WorkerError
  -- The polls of a busy run before the lease's deadline.
  pub polls : ℕ

abbrev pub Service : Worker → Type 0
Service worker = World worker.Ledger TurnSession
