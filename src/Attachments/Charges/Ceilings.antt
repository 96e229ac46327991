-- ===== src/Attachments/Charges/Ceilings.antt =====
-- The token ceilings of a turn's attachments: runtime/src/attachments.rs and attachments/count.rs.
use shimpz_brain.Base.{
  ℕ, suc, ◌+◌, ◌*◌, ◌≤◌, Bool, false, true, List, [], ◌∷◌, ◌≡◌, ok, length, All, any, ltb, arith,
}
use shimpz_brain.Base.Results.{>>=-eq-ok}
use shimpz_brain.Budget.{max_u64, saturating_add}
use shimpz_brain.Attachments.Types.{Attachment}
use shimpz_brain.Attachments.Admission.{Rules}
use shimpz_brain.Attachments.Charges.{
  Counted, max_file_tokens, max_call_tokens, max_turn_tokens, summed, admit_charges, admit_call,
  charge_of, counted_at, per_file, charges, charge, receive, countable, turn_cancelled,
}

abbrev pub sum : List ℕ → ℕ
sum [] = 0
sum (n ∷ ns) = n + sum ns

le-summed : (start : ℕ) (ns : List ℕ) → start ≤ max_u64 → start ≤ summed start ns
unfolding summed
le-summed start [] h = omega arith
le-summed start (n ∷ ns) h = ground (arith, le-summed (saturating_add start n) ns)

summed_small :
    (start : ℕ) (ns : List ℕ)
    → start ≤ max_u64
    → summed start ns ≤ max_call_tokens
    → summed start ns ≡ start + sum ns
unfolding summed
summed_small start [] b h = omega arith
summed_small start (n ∷ ns) b h =
    ground (arith, le-summed (saturating_add start n) ns, summed_small (saturating_add start n) ns)

files_small :
    (ns : List ℕ) → any (λ n. ltb max_file_tokens n) ns ≡ false → All (λ n. n ≤ max_file_tokens) ns
files_small [] h = tt
files_small (n ∷ ns) h = (ground arith, files_small ns (ground arith))

admit_charges-sum :
    (ns : List ℕ) (total : ℕ)
    → admit_charges ns ≡ ok total
    → All (λ n. n ≤ max_file_tokens) ns × (total ≡ sum ns) × (total ≤ max_call_tokens)
unfolding admit_charges
admit_charges-sum ns total h =
    let same : summed 0 ns ≡ total = ground arith in
    let small : total ≤ max_call_tokens = ground arith in
    (
      files_small ns (ground arith),
      omega (arith, summed_small 0 ns (omega arith) (rw same small), same),
      small,
    )

admit_call_turn :
    (total calls : ℕ) → admit_call total calls ≡ ok tt → total * (calls + 1) ≤ max_turn_tokens
unfolding admit_call
admit_call_turn total calls h = ground arith

module _ (rules : Rules) where
  per_file-length :
      (index : ℕ) (counted : List (ℕ × Counted)) (items : List Attachment) (ns : List ℕ)
      → per_file rules index counted items ≡ ok ns
      → length ns ≡ length items
  unfolding per_file
  per_file-length index counted [] ns h = ground arith
  per_file-length index counted (a ∷ items) ns h =
      let (first, same, rest) = >>=-eq-ok (charge_of rules (counted_at index counted) a) _ h in
      let (others, kept, last) = >>=-eq-ok (per_file rules (index + 1) counted items) _ rest in
      let ih = per_file-length (index + 1) counted items others kept in ground arith

  charges-length :
      (before after : Bool) (arrivals : List (ℕ × Counted)) (items : List Attachment) (ns : List ℕ)
      → charges rules before after arrivals items ≡ ok ns
      → length ns ≡ length items
  unfolding charges turn_cancelled
  charges-length false false arrivals items ns h =
      let (counted, same, rest) = >>=-eq-ok (receive (countable rules items) arrivals) _ h in
      per_file-length 0 counted items ns rest
  charges-length false true arrivals items ns h =
      let (counted, same, rest) = >>=-eq-ok (receive (countable rules items) arrivals) _ h in
      absurd (ground arith)
  charges-length true after arrivals items ns h = absurd (ground arith)

  -- A charge that a call is admitted under: one count a file, none above its ceiling, their plain
  -- sum (no overflow) within the call's ceiling, and the reserved attempts together with this one
  -- within the turn's.
  pub charge_within :
      (before after : Bool) (arrivals : List (ℕ × Counted)) (a : Attachment)
      (items : List Attachment) (total calls : ℕ)
      → charge rules before after arrivals (a ∷ items) ≡ ok total
      → admit_call total calls ≡ ok tt
      → (ns : List ℕ) × (charges rules before after arrivals (a ∷ items) ≡ ok ns)
        × (length ns ≡ suc (length items))
        × All (λ n. n ≤ max_file_tokens) ns
        × (total ≡ sum ns)
        × (total ≤ max_call_tokens)
        × (total * (calls + 1) ≤ max_turn_tokens)
  unfolding charge
  charge_within before after arrivals a items total calls h admitted =
      let (ns, same, rest) =
        >>=-eq-ok (charges rules before after arrivals (a ∷ items)) admit_charges h in
      let (files, sums, small) = admit_charges-sum ns total rest in
      (
        ns,
        same,
        charges-length before after arrivals (a ∷ items) ns same,
        files,
        sums,
        small,
        admit_call_turn total calls admitted,
      )
