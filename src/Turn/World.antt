-- ===== src/Turn/World.antt =====
-- What one operation of the turn service acts on: the rows of the thread store, Holdpoint's ledger
-- and the installed sessions, with the crash points of runtime/src/failpoint.rs. `left` counts the
-- steps on the stores that still succeed before the process stops or its disk fails.
use shimpz_brain.Base.{ℕ, zero, suc, String, Bool, Option, Result, ok, err}
use shimpz_brain.Base.Table.{Table}
use shimpz_brain.Errors.{BrainError, state}

-- A row of `threads` and a row of `deliveries`, as SQLite holds them.
pub record Row : Type 0 where
  pub scope : String
  pub history : String
  pub open_run : Option String
  pub committed_run : Option String

pub record DeliveryRow : Type 0 where
  pub answered : String
  pub turn : String

pub record World (Ledger Session : Type 0) : Type 0 where
  pub rows : Table Row
  pub deliveries : Table DeliveryRow
  pub ledger : Ledger
  pub sessions : Table Session
  pub log_kept : Bool  -- a reader keeps the write-ahead log
  pub left : ℕ

-- A method on the stores that may fail: what it wrote before the failure stays written.
abbrev pub Act : Type 0 → Type 0 → Type 0
Act W A = W → Result A BrainError × W

module _ {W A : Type 0} where
  pub pure : A → Act W A
  pure a w = (ok a, w)

  pub raise : BrainError → Act W A
  raise e w = (err e, w)

  pub lift : Result A BrainError → Act W A
  lift r w = (r, w)

  pub gets : (W → A) → Act W A
  gets f w = (ok (f w), w)

pub modify : {W : Type 0} → (W → W) → Act W (Unit {0})
modify f w = (ok tt, f w)

module _ {Ledger Session : Type 0} where
  abbrev pub tick_from : ℕ → Act (World Ledger Session) (Unit {0})
  tick_from zero w = (err state, w)
  tick_from (suc n) w = (ok tt, record w { left = n })

  -- A step on a store: it fails, leaving the stores as they are, once the process has stopped.
  pub tick : Act (World Ledger Session) (Unit {0})
  tick w = tick_from w.left w

module _ {W A B : Type 0} where
  abbrev pub continue : Result A BrainError → (A → Act W B) → Act W B
  continue (ok a) f w = f a w
  continue (err e) f w = (err e, w)

  infixl 5 ◌>>=◌
  -- opening this opens the actions above too
  unfoldable pub ◌>>=◌ : Act W A → (A → Act W B) → Act W B
  unfolding pure raise lift gets modify tick
  ◌>>=◌ m f w = let (r, w') = m w in continue r f w'

infixl 5 ◌>>◌
abbrev pub ◌>>◌ : {W A B : Type 0} → Act W A → Act W B → Act W B
m >> k = m >>= λ _. k
