-- ===== src/Budget/History.antt =====
-- What a new turn forgets (`drop_within` of runtime/src/budget.rs): the kept exchanges are the
-- newest run of eligible ones that fits the bounds, and everything else is dropped, once.
use mathlib.Core.List.{reverse, reverse-cons, reverse-reverse, Perm, perm_append_comm, map-append}
use mathlib.Core.List.Perm
use shimpz_brain.Base.{
  ℕ, suc, ◌+◌, ◌≤◌, String, Bool, true, false, List, [], ◌∷◌, ◌++◌, ◌≡◌, refl, sym, ap, ◌∙◌,
  if◌then◌else◌, concat, map, filter, length, length-append, length-map, All, Result, ok, err,
  arith, Bool-cases, inl, inr, append-nil, append_assoc,
}
use shimpz_brain.Conversation.{Message, message_id}
use shimpz_brain.Python.{Python}
use shimpz_brain.Budget.{
  FitError, Limits, exchanges, max_u64, saturating_add, window_within, is_err, dropped, eligible,
  group_tokens, breaks, keep_from, drop_within,
}
use shimpz_brain.Budget.Exchanges.{exchanges_partition}

-- The groups whose flag is on.
unfoldable pub selected : List (List Message) → List Bool → List (List Message)
selected [] flags = []
selected (g ∷ gs) [] = []
selected (g ∷ gs) (true ∷ flags) = g ∷ selected gs flags
selected (g ∷ gs) (false ∷ flags) = selected gs flags

selected_none : (gs : List (List Message)) → selected gs (map (λ _. false) gs) ≡ []
unfolding selected
selected_none [] = refl
selected_none (g ∷ gs) = selected_none gs

selected-append :
    (gs : List (List Message)) (flags : List Bool) (g : List Message) (b : Bool)
    → length flags ≡ length gs
    → selected (gs ++ g ∷ []) (flags ++ b ∷ []) ≡ selected gs flags ++ selected (g ∷ []) (b ∷ [])
unfolding selected
selected-append [] [] g b e = refl
selected-append [] (f ∷ flags) g b e = absurd (omega arith)
selected-append (h ∷ gs) [] g b e = absurd (omega arith)
selected-append (h ∷ gs) (true ∷ flags) g b e =
    ap (λ (r : List (List Message)). h ∷ r) (selected-append gs flags g b (omega arith))
selected-append (h ∷ gs) (false ∷ flags) g b e = selected-append gs flags g b (omega arith)

length-reverse {ℓ} : {A : Type ℓ} (xs : List A) → length (reverse xs) ≡ length xs
length-reverse [] = refl
length-reverse (x ∷ xs) =
    rw (reverse-cons x xs) (omega (arith, length-append (reverse xs) (x ∷ []), length-reverse xs))

selected-reverse :
    (gs : List (List Message)) (flags : List Bool)
    → length flags ≡ length gs
    → selected (reverse gs) (reverse flags) ≡ reverse (selected gs flags)
unfolding selected
selected-reverse [] [] e = refl
selected-reverse [] (f ∷ flags) e = absurd (omega arith)
selected-reverse (g ∷ gs) [] e = absurd (omega arith)
selected-reverse (g ∷ gs) (true ∷ flags) e =
    rw (reverse-cons g gs, reverse-cons true flags)
      (selected-append (reverse gs) (reverse flags) g true
          (omega (arith, length-reverse gs, length-reverse flags))
        ∙ rw (selected-reverse gs flags (omega arith)) (sym (reverse-cons g (selected gs flags))))
selected-reverse (g ∷ gs) (false ∷ flags) e =
    rw (reverse-cons g gs, reverse-cons false flags)
      (selected-append (reverse gs) (reverse flags) g false
          (omega (arith, length-reverse gs, length-reverse flags))
        ∙ rw (selected-reverse gs flags (omega arith)) (append-nil _))

perm_through :
    (ds ids ks : List String) {ms : List String}
    → Perm (ds ++ ks) ms
    → Perm (ds ++ (ids ++ ks)) (ids ++ ms)
perm_through ds ids ks p =
    Perm.trans {l₂ = (ids ++ ds) ++ ks}
      (rw (← append_assoc ds ids ks) (Perm.append_right ks (perm_append_comm ds ids)))
      (rw (append_assoc ids ds ks) (Perm.append_left ids p))

-- Dropped ids and kept messages' ids together are the ids of all groups.
dropped-selected_perm :
    (gs : List (List Message)) (flags : List Bool)
    → length flags ≡ length gs
    → Perm
        (dropped gs flags ++ map message_id (concat (selected gs flags)))
        (map message_id (concat gs))
unfolding dropped selected
dropped-selected_perm [] [] e = Perm.refl []
dropped-selected_perm [] (f ∷ flags) e = absurd (omega arith)
dropped-selected_perm (g ∷ gs) [] e = absurd (omega arith)
dropped-selected_perm (g ∷ gs) (false ∷ flags) e =
    rw (append_assoc, map-append message_id g (concat gs))
      (Perm.append_left (map message_id g) (dropped-selected_perm gs flags (omega arith)))
dropped-selected_perm (g ∷ gs) (true ∷ flags) e =
    let later = dropped-selected_perm gs flags (omega arith) in
    rw (map-append message_id g (concat (selected gs flags)), map-append message_id g (concat gs))
      (perm_through (dropped gs flags) (map message_id g) _ later)

saturating_add_zero : (n : ℕ) → n ≤ max_u64 → saturating_add n 0 ≡ n
saturating_add_zero n h = ground arith

not_err : (r : Result (Unit {0}) FitError) → is_err r ≡ false → r ≡ ok tt
not_err (ok tt) h = refl
not_err (err e) h = absurd (cc)

module _ (py : Python) (limits : Limits) (fixed current : ℕ) (forgotten : Message → Bool) where
  -- The reference: the longest run of the groups, newest first, that fits.
  unfoldable pub fit : ℕ → ℕ → List (List Message) → List (List Message)
  fit count used [] = []
  fit count used (g ∷ gs) =
      let total = saturating_add used (group_tokens py g) in
      let rest = fit (suc count) total gs in
      if breaks py limits fixed current count used g then [] else g ∷ rest

  length-keep_from :
      (count used : ℕ) (gs : List (List Message))
      → length (keep_from py limits fixed current forgotten count used gs) ≡ length gs
  unfolding keep_from
  length-keep_from count used [] = refl
  length-keep_from count used (g ∷ gs) = ground (
    arith,
    length-keep_from count used gs,
    length-keep_from (suc count) (saturating_add used (group_tokens py g)) gs,
    length-map {0, 0} (λ (_ : List Message). false) gs,
  )

  selected-keep_from :
      (count used : ℕ) (gs : List (List Message))
      → selected gs (keep_from py limits fixed current forgotten count used gs)
        ≡ fit count used (filter (eligible py forgotten) gs)
  unfolding keep_from fit selected
  selected-keep_from count used [] = refl
  selected-keep_from count used (g ∷ gs) = elim (Bool-cases (eligible py forgotten g)) [
    | inr e ↦ rw e (selected-keep_from count used gs)
    | inl e ↦ elim (Bool-cases (breaks py limits fixed current count used g)) [
      | inl b ↦ rw (e, b) (selected_none gs)
      | inr b ↦
          rw (e, b)
            (ap (λ (r : List (List Message)). g ∷ r)
              (selected-keep_from (suc count) (saturating_add used (group_tokens py g)) gs))
    ]
  ]

  -- The kept groups, oldest first, as `drop_within` selects them.
  unfoldable pub kept_groups : List (List Message) → List (List Message)
  kept_groups groups =
      selected groups (reverse (keep_from py limits fixed current forgotten 0 0 (reverse groups)))

  kept_groups-fit :
      (groups : List (List Message))
      → kept_groups groups ≡ reverse (fit 0 0 (filter (eligible py forgotten) (reverse groups)))
  unfolding kept_groups
  kept_groups-fit groups =
      let flags = keep_from py limits fixed current forgotten 0 0 (reverse groups) in
      ap (λ (gs : List (List Message)). selected gs (reverse flags)) (sym (reverse-reverse groups))
      ∙ selected-reverse (reverse groups) flags (length-keep_from 0 0 (reverse groups))
      ∙ ap (λ (gs : List (List Message)). reverse gs) (selected-keep_from 0 0 (reverse groups))

  -- The tokens of kept groups, added as the loop adds them.
  abbrev pub kept_tokens : ℕ → List (List Message) → ℕ
  kept_tokens used [] = used
  kept_tokens used (g ∷ gs) = kept_tokens (saturating_add used (group_tokens py g)) gs

  -- What the loop keeps within: the bounds at a count and a total.
  abbrev pub Within : ℕ → ℕ → Type 0
  Within count used =
      (count ≤ limits.exchanges)
      × (used ≤ limits.history)
      × (window_within limits (saturating_add fixed used) current ≡ ok tt)

  not-breaks-Within :
      (count used : ℕ) (g : List Message)
      → count ≤ limits.exchanges
      → breaks py limits fixed current count used g ≡ false
      → Within (suc count) (saturating_add used (group_tokens py g))
  unfolding breaks
  not-breaks-Within count used g h e =
      let total = saturating_add fixed (saturating_add used (group_tokens py g)) in
      let fits : is_err (window_within limits total current) ≡ false = ground arith in
      (ground arith, ground arith, not_err _ fits)

  fit-Within :
      (count used : ℕ) (gs : List (List Message))
      → Within count used
      → Within (count + length (fit count used gs)) (kept_tokens used (fit count used gs))
  unfolding fit
  fit-Within count used [] h = let e : count + 0 ≡ count = omega arith in rw e h
  fit-Within count used (g ∷ gs) h =
      elim (Bool-cases (breaks py limits fixed current count used g)) [
        | inl b ↦ rw b (let e : count + 0 ≡ count = omega arith in rw e h)
        | inr b ↦
            let total = saturating_add used (group_tokens py g) in
            let e : count + suc (length (fit (suc count) total gs))
                ≡ suc count + length (fit (suc count) total gs) =
              omega arith in
            rw b (rw e (fit-Within (suc count) total gs (not-breaks-Within count used g h.0 b)))
      ]

  All-fit :
      (count used : ℕ) (gs : List (List Message))
      → All
          (λ g. eligible py forgotten g ≡ true)
          (fit count used (filter (eligible py forgotten) gs))
  unfolding fit
  All-fit count used [] = tt
  All-fit count used (g ∷ gs) = elim (Bool-cases (eligible py forgotten g)) [
    | inr e ↦ rw e (All-fit count used gs)
    | inl e ↦ elim (Bool-cases (breaks py limits fixed current count used g)) [
      | inl b ↦ rw (e, b) tt
      | inr b ↦ rw (e, b) (e, All-fit (suc count) (saturating_add used (group_tokens py g)) gs)
    ]
  ]

  -- The flags and the ids of a call that drops.
  drop_within_ok :
      (history : List Message) {ids : List String}
      → drop_within py limits history fixed current forgotten ≡ ok ids
      → (groups : List (List Message)) × (exchanges history ≡ ok groups)
        × (window_within limits fixed current ≡ ok tt)
        × (ids
            ≡ dropped groups
                (reverse (keep_from py limits fixed current forgotten 0 0 (reverse groups))))
  unfolding drop_within
  drop_within_ok history h = ground arith

  kept_perm :
      (groups : List (List Message)) (history : List Message) (ids : List String)
      → concat groups ≡ history
      → ids
        ≡ dropped groups
            (reverse (keep_from py limits fixed current forgotten 0 0 (reverse groups)))
      → Perm
          (ids
            ++ map message_id
                (concat (reverse (fit 0 0 (filter (eligible py forgotten) (reverse groups))))))
          (map message_id history)
  kept_perm groups history ids whole same =
      rw (same, ← kept_groups-fit groups, ← whole)
        (unfold kept_groups in
          dropped-selected_perm groups _
            (length-reverse _ ∙ length-keep_from 0 0 (reverse groups) ∙ length-reverse groups))

  -- Whatever history a new turn starts from, what it keeps and what it drops together are the whole
  -- history, each message once; the kept exchanges are completed and hold nothing forgotten, number
  -- at most the limit, and take at most the history budget together, added as the loop adds them;
  -- and the window still holds the fixed tokens, the kept ones, the current ones and the reserve.
  -- The fixed tokens are those of a `u64`.
  pub drop_within_bounds :
      (history : List Message) (ids : List String)
      → fixed ≤ max_u64
      → drop_within py limits history fixed current forgotten ≡ ok ids
      → (kept : List (List Message)) × Perm
          (ids ++ map message_id (concat (reverse kept)))
          (map message_id history)
        × All (λ g. eligible py forgotten g ≡ true) kept
        × (length kept ≤ limits.exchanges)
        × (kept_tokens 0 kept ≤ limits.history)
        × (window_within limits (saturating_add fixed (kept_tokens 0 kept)) current ≡ ok tt)
  drop_within_bounds history ids u64 h =
      let (groups, split, window_ok, same) = drop_within_ok history h in
      let news = filter (eligible py forgotten) (reverse groups) in
      let start : Within 0 0 =
        (omega arith, omega arith, rw (saturating_add_zero fixed u64) window_ok) in
      let bounds = fit-Within 0 0 news start in
      let (whole, _, _) = exchanges_partition history groups split in
      (
        fit 0 0 news,
        kept_perm groups history ids whole same,
        All-fit 0 0 (reverse groups),
        omega (arith, bounds),
        bounds.1,
        bounds.2,
      )

  -- The kept exchanges are the longest run, from the newest back, of the eligible ones that fits:
  -- the dropped ids are those of all the other groups.
  pub drop_within-fit :
      (history : List Message) (groups : List (List Message))
      → window_within limits fixed current ≡ ok tt
      → exchanges history ≡ ok groups
      → (flags : List Bool) × (length flags ≡ length groups)
        × (drop_within py limits history fixed current forgotten ≡ ok (dropped groups flags))
        × (selected groups flags
            ≡ reverse (fit 0 0 (filter (eligible py forgotten) (reverse groups))))
  unfolding drop_within
  drop_within-fit history groups w e = (
    reverse (keep_from py limits fixed current forgotten 0 0 (reverse groups)),
    length-reverse _ ∙ length-keep_from 0 0 (reverse groups) ∙ length-reverse groups,
    ground arith,
    unfold kept_groups in kept_groups-fit groups,
  )
