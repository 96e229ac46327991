-- ===== src/Attachments/Charges.antt =====
-- The token charge of a turn's attachments: `charge`, `admit_charges` and `admit_call` of
-- runtime/src/attachments.rs over `charges` of runtime/src/attachments/count.rs. `arrivals` are the
-- counts in the order in which the workers' channel delivers them before the deadline.
pub mod Ceilings
use shimpz_brain.Base.{
  ℕ, ◌+◌, ◌*◌, String, Bool, true, false, not, ◌&&◌, ◌||◌, Option, none, some, List, [], ◌∷◌, map,
  ltb, ◌==◌, if◌then◌else◌, any, is_nil, Result, ok, err, zero, suc, length,
}
use shimpz_brain.Base.Results.{◌>>=◌}
use shimpz_brain.Budget.{max_u64, saturating_add}
use shimpz_brain.Errors.{BrainError, contract, cancelled}
use shimpz_brain.Attachments.Types.{Attachment, is_opaque}
use shimpz_brain.Attachments.Admission.{Rules}
use shimpz_brain.Attachments.Projection.{estimated_charge}

abbrev pub max_file_tokens : ℕ
max_file_tokens = 8000

abbrev pub max_call_tokens : ℕ
max_call_tokens = 16000

abbrev pub max_turn_tokens : ℕ
max_turn_tokens = 64000

pub data Counted : Type 0 where
  value : ℕ → Counted
  unavailable stopped : Counted

unfoldable pub summed : ℕ → List ℕ → ℕ
summed sum [] = sum
summed sum (n ∷ ns) = summed (saturating_add sum n) ns

unfoldable pub admit_charges : List ℕ → Result ℕ BrainError
unfolding summed
admit_charges per_file =
    let total = summed 0 per_file in
    if any (λ n. ltb max_file_tokens n) per_file || ltb max_call_tokens total
    then err (contract "attachments exceed the model token ceilings")
    else ok total

-- `u64::saturating_mul`.
abbrev pub saturating_mul : ℕ → ℕ → ℕ
saturating_mul a b = if ltb max_u64 (a * b) then max_u64 else a * b

unfoldable pub admit_call : ℕ → ℕ → Result (Unit {0}) String
admit_call charge calls_so_far =
    if ltb 0 charge && ltb max_turn_tokens (saturating_mul charge (calls_so_far + 1))
    then err "attachments exceed the turn's token ceiling"
    else ok tt

unfoldable pub turn_cancelled : {A : Type 0} → Result A BrainError
turn_cancelled = err (cancelled "Chat turn cancelled")

value_of : Counted → Option ℕ
value_of (value n) = some n
value_of _ = none

-- `values[index]`, which the last count of a file fills.
unfoldable pub counted_at : ℕ → List (ℕ × Counted) → Option ℕ
unfolding value_of
counted_at index [] = none
counted_at index ((i, counted) ∷ rest) = elim (counted_at index rest) [
  | some n ↦ some n
  | none ↦ if i == index then value_of counted else none
]

unfoldable pub is_stopped : Counted → Bool
is_stopped stopped = true
is_stopped _ = false

-- `collect`: a count that ended because the turn was stopped ends the charging; the receiver reads
-- at most `expected` of them.
unfoldable pub receive : ℕ → List (ℕ × Counted) → Result (List (ℕ × Counted)) BrainError
receive zero arrivals = ok []
receive (suc expected) [] = ok []
receive (suc expected) ((i, counted) ∷ rest) = do
  later ← if is_stopped counted then turn_cancelled else receive expected rest
  ok ((i, counted) ∷ later)

module _ (rules : Rules) where
  charge_of : Option ℕ → Attachment → Result ℕ BrainError
  charge_of (some n) a = ok n
  charge_of none a = estimated_charge rules a

  per_file : ℕ → List (ℕ × Counted) → List Attachment → Result (List ℕ) BrainError
  unfolding charge_of
  per_file index counted [] = ok []
  per_file index counted (a ∷ attachments) = do
    first ← charge_of (counted_at index counted) a
    rest ← per_file (index + 1) counted attachments
    ok (first ∷ rest)

  countable : List Attachment → ℕ
  countable [] = 0
  countable (a ∷ attachments) =
      let rest = countable attachments in if is_opaque a.content then rest else suc rest

  -- `scope.stopped()` is read before the counting and after it.
  unfoldable pub charges :
      Bool → Bool → List (ℕ × Counted) → List Attachment → Result (List ℕ) BrainError
  unfolding per_file countable
  charges stopped_before stopped_after arrivals attachments =
      if stopped_before then turn_cancelled else do
        counted ← receive (countable attachments) arrivals
        if stopped_after then turn_cancelled else per_file 0 counted attachments

  unfoldable pub charge : Bool → Bool → List (ℕ × Counted) → List Attachment → Result ℕ BrainError
  charge stopped_before stopped_after arrivals attachments = if is_nil attachments then ok 0 else do
    counts ← charges stopped_before stopped_after arrivals attachments
    admit_charges counts
