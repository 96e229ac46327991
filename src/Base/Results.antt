-- ===== src/Base/Results.antt =====
-- The question mark of Rust: a chain of `Result`s stops at the first failure.
use mathlib.Core.Path.{◌≡◌, refl}
use shimpz_brain.Base.Tests.{Result, ok, err}

module _ {ℓ κ μ} {Failure : Type ℓ} {Value : Type κ} {Next : Type μ} where
  infixl 5 ◌>>=◌
  abbrev pub ◌>>=◌ : Result Value Failure → (Value → Result Next Failure) → Result Next Failure
  err failure >>= next = err failure
  ok value >>= next = next value

  -- What a chain that succeeds went through.
  pub >>=-eq-ok :
      (first : Result Value Failure) (next : Value → Result Next Failure) {last : Next}
      → (first >>= next) ≡ ok last
      → (between : Value) × (first ≡ ok between) × (next between ≡ ok last)
  >>=-eq-ok (err failure) next succeeds = absurd (cc)
  >>=-eq-ok (ok value) next succeeds = (value, refl, succeeds)
