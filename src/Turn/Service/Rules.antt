-- ===== src/Turn/Service/Rules.antt =====
-- How an action on the stores ends: it returns, or it stops at a step, in a state from which the
-- service can go on. One rule for each way to build an action.
use shimpz_brain.Base.{
  ℕ, zero, suc, ◌+◌, ◌≤◌, ◌<◌, ◌≡◌, sym, subst, Result, ok, err, ◌⊎◌, inl, inr, arith,
}
use shimpz_brain.Base.Table.{Table}
use shimpz_brain.Errors.{BrainError, state}
use shimpz_brain.Turn.World.{
  Row, DeliveryRow, World, Act, pure, lift, tick, tick_from, continue, ◌>>=◌, ◌>>◌,
}

-- What outlives the process.
pub record Stores (Ledger : Type 0) : Type 0 where
  pub rows : Table Row
  pub deliveries : Table DeliveryRow
  pub ledger : Ledger

abbrev pub stores : {Ledger Session : Type 0} → World Ledger Session → Stores Ledger
stores w = record { rows = w.rows; deliveries = w.deliveries; ledger = w.ledger }

module _ {Ledger Session : Type 0} (Fault : Type 0) (Safe : Stores Ledger → Type 0) where
  -- From `n` steps left: a return has taken at most `k` of them, and only fewer than `k`, or a
  -- fault, stop the action, with a state error, where `Safe` holds.
  pub data Ends {A : Type 0} (Good : A → Stores Ledger → Type 0) (n k : ℕ)
      : Result A BrainError × World Ledger Session → Type 0 where
    returns :
        {a : A} {w : World Ledger Session}
        → Good a (stores w)
        → n ≤ w.left + k
        → Ends Good n k (ok a, w)
    stops :
        {w : World Ledger Session}
        → Safe (stores w)
        → (n < k) ⊎ Fault
        → Ends Good n k (err state, w)

-- An action that gives one value and leaves the stores as said.
abbrev pub Gives : {A Ledger : Type 0} → A → Stores Ledger → A → Stores Ledger → Type 0
Gives a s b t = (b ≡ a) × (t ≡ s)

module _ {Ledger Session : Type 0} {Fault : Type 0} {Safe : Stores Ledger → Type 0} {A : Type 0}
    {Good : A → Stores Ledger → Type 0} where
  -- The same end, counted from other steps.
  pub Ends-more :
      (n m k more : ℕ) {p : Result A BrainError × World Ledger Session}
      → m + k ≤ n + more
      → Ends Fault Safe Good n k p
      → Ends Fault Safe Good m more p
  Ends-more n m k more le (returns good h) = returns good (omega arith)
  Ends-more n m k more le (stops safe (inl h)) = stops safe (inl (omega arith))
  Ends-more n m k more le (stops safe (inr h)) = stops safe (inr h)

  ticked_from :
      (n k : ℕ) (f : Act (World Ledger Session) A) (w : World Ledger Session)
      → Safe (stores w)
      → ((m : ℕ) → Ends Fault Safe Good m k (f (record w { left = m })))
      → let (r, w') = tick_from n w in Ends Fault Safe Good n (suc k) (continue r (λ _. f) w')
  ticked_from zero k f w safe rest = stops safe (inl (omega arith))
  ticked_from (suc n) k f w safe rest = Ends-more n (suc n) k (suc k) (omega arith) (rest n)

  -- A step, from a state in which the action may stop.
  pub ticked :
      (k : ℕ) (f : Act (World Ledger Session) A) (w : World Ledger Session)
      → Safe (stores w)
      → ((m : ℕ) → Ends Fault Safe Good m k (f (record w { left = m })))
      → Ends Fault Safe Good w.left (suc k) ((tick >> f) w)
  unfolding ◌>>=◌
  ticked k f w safe rest = ticked_from w.left k f w safe rest

module _ {Ledger Session : Type 0} {Fault : Type 0} {Safe : Stores Ledger → Type 0} {A B : Type 0}
    {Mid : A → Stores Ledger → Type 0} {Good : B → Stores Ledger → Type 0} where
  continue-Ends :
      (n k j : ℕ) (p : Result A BrainError × World Ledger Session)
      (f : A → Act (World Ledger Session) B)
      → Ends Fault Safe Mid n k p
      → ((a : A) (w : World Ledger Session)
          → Mid a (stores w)
          → Ends Fault Safe Good w.left j (f a w))
      → Ends Fault Safe Good n (k + j) (continue p.0 f p.1)
  continue-Ends n k j p f (returns {a} {w} good h) rest =
      Ends-more w.left n j (k + j) (omega arith) (rest a w good)
  continue-Ends n k j p f (stops safe (inl h)) rest = stops safe (inl (omega arith))
  continue-Ends n k j p f (stops safe (inr h)) rest = stops safe (inr h)

  pub bound :
      (k j : ℕ) (m : Act (World Ledger Session) A) (f : A → Act (World Ledger Session) B)
      (w : World Ledger Session)
      → Ends Fault Safe Mid w.left k (m w)
      → ((a : A) (w' : World Ledger Session)
          → Mid a (stores w')
          → Ends Fault Safe Good w'.left j (f a w'))
      → Ends Fault Safe Good w.left (k + j) ((m >>= f) w)
  unfolding ◌>>=◌
  bound k j m f w first rest = continue-Ends w.left k j (m w) f first rest

module _ {Ledger Session : Type 0} {Fault : Type 0} {Safe : Stores Ledger → Type 0} {A : Type 0}
    {Good : A → Stores Ledger → Type 0} where
  pub pured :
      (a : A) (w : World Ledger Session)
      → Good a (stores w)
      → Ends Fault Safe Good w.left 0 (pure a w)
  unfolding ◌>>=◌
  pured a w good = returns good (omega arith)

  pub lift_ends :
      (a : A) (r : Result A BrainError) (w : World Ledger Session)
      → r ≡ ok a
      → Good a (stores w)
      → Ends Fault Safe Good w.left 0 (lift r w)
  unfolding ◌>>=◌
  lift_ends a r w same good = rw same (returns good (omega arith))

module _ {Ledger Session : Type 0} {Fault : Type 0} {Safe : Stores Ledger → Type 0} {A B : Type 0}
    {Good : B → Stores Ledger → Type 0} where
  -- After an action that gives one value and one state of the stores.
  pub given :
      (k j more : ℕ) (v : A) (s : Stores Ledger) (m : Act (World Ledger Session) A)
      (f : A → Act (World Ledger Session) B) (w : World Ledger Session)
      → k + j ≤ more
      → Ends Fault Safe (Gives v s) w.left k (m w)
      → ((w' : World Ledger Session) → stores w' ≡ s → Ends Fault Safe Good w'.left j (f v w'))
      → Ends Fault Safe Good w.left more ((m >>= f) w)
  given k j more v s m f w le first rest = Ends-more w.left w.left (k + j) more (omega arith) (
      bound k j m f w first λ a w' g.
        subst (λ (a' : A). Ends Fault Safe Good w'.left j (f a' w')) (sym g.0) (rest w' g.1))

module _ {Ledger Session : Type 0} {Fault : Type 0} {Safe : Stores Ledger → Type 0} {A B : Type 0}
    {Good : B → Stores Ledger → Type 0} where
  pub lifted :
      (k : ℕ) (a : A) (r : Result A BrainError) (f : A → Act (World Ledger Session) B)
      (w : World Ledger Session)
      → r ≡ ok a
      → Ends Fault Safe Good w.left k (f a w)
      → Ends Fault Safe Good w.left k ((lift r >>= f) w)
  unfolding ◌>>=◌
  lifted k a r f w same rest = rw same rest

module _ {Ledger Session : Type 0} {Fault : Type 0} {Safe : Stores Ledger → Type 0} {A : Type 0}
    {Good Better : A → Stores Ledger → Type 0} where
  -- What a return is known for may be restated.
  pub Ends-good :
      {n k : ℕ} {p : Result A BrainError × World Ledger Session}
      → Ends Fault Safe Good n k p
      → ((a : A) (s : Stores Ledger) → Good a s → Better a s)
      → Ends Fault Safe Better n k p
  Ends-good (returns good h) restate = returns (restate _ _ good) h
  Ends-good (stops safe h) restate = stops safe h
