-- ===== src/Budget/Omission.antt =====
-- Which older Action results a new turn omits (`omit_within` of runtime/src/budget.rs).
use shimpz_brain.Base.{
  ℕ, zero, suc, ◌-◌, ◌≤◌, ◌<◌, Bool, true, ◌&&◌, List, [], ◌∷◌, ◌++◌, ◌≡◌, ◌≢◌, inl, inr, refl, sym,
  ◌∙◌, if◌then◌else◌, concat, map, filter, filter_map, length, take, drop, All, ok, arith,
  Bool-cases, append-nil, append_assoc, ltb, leb,
}
use shimpz_brain.Conversation.{ToolMessage, Message, user, assistant, tool, as_tool}
use shimpz_brain.Python.{Python}
use shimpz_brain.Budget.{
  Limits, exchanges, saturating_add, eligible, placeholder, gain, omit_from, older, omit_within,
  omitted_result, keep_result_exchanges,
}

take-append-drop {ℓ} : {A : Type ℓ} (n : ℕ) (xs : List A) → take n xs ++ drop n xs ≡ xs
take-append-drop zero xs = refl
take-append-drop (suc n) [] = refl
take-append-drop (suc n) (x ∷ xs) = rw (take-append-drop n xs)

length-drop {ℓ} : {A : Type ℓ} (n : ℕ) (xs : List A) → length (drop n xs) ≡ length xs - n
length-drop zero xs = omega arith
length-drop (suc n) [] = omega arith
length-drop (suc n) (x ∷ xs) = omega (arith, length-drop n xs)

module _ (py : Python) (action_result : ToolMessage → Bool) where
  -- A result worth omitting: an Action's, and larger than its placeholder.
  abbrev pub worth : ToolMessage → Bool
  worth r = action_result r && ltb 0 (gain py r)

  -- The reference: the results worth omitting among some messages, and what they save together.
  abbrev pub omittable : List Message → List ToolMessage
  omittable ms = filter worth (filter_map as_tool ms)

  abbrev pub savings : ℕ → List ToolMessage → ℕ
  savings saved [] = saved
  savings saved (r ∷ rs) = savings (saturating_add saved (gain py r)) rs

  omit_from-omittable :
      (acc : List ToolMessage) (saved : ℕ) (ms : List Message)
      → omit_from py action_result acc saved ms
        ≡ (acc ++ map (placeholder py) (omittable ms), savings saved (omittable ms))
  unfolding omit_from as_tool
  omit_from-omittable acc saved [] = rw (append-nil acc)
  omit_from-omittable acc saved (user id content ∷ ms) = omit_from-omittable acc saved ms
  omit_from-omittable acc saved (assistant m ∷ ms) = omit_from-omittable acc saved ms
  omit_from-omittable acc saved (tool r ∷ ms) = elim (Bool-cases (worth r)) [
    | inl e ↦ rw e (
        omit_from-omittable (acc ++ placeholder py r ∷ []) (saturating_add saved (gain py r)) ms
        ∙ rw (append_assoc acc (placeholder py r ∷ []) (map (placeholder py) (omittable ms))))
    | inr e ↦ rw e (omit_from-omittable acc saved ms)
  ]

  gain_omitted : (r : ToolMessage) → r.content ≡ omitted_result → gain py r ≡ 0
  unfolding gain placeholder
  gain_omitted r e =
      let same : record r { content = omitted_result } ≡ r =
        (λ i. record r { content = sym e i }) in
      rw same (omega arith)

  worth-ne-omitted : (r : ToolMessage) → worth r ≡ true → r.content ≢ omitted_result
  worth-ne-omitted r h e = ground (arith, gain_omitted r e)

  omittable-All :
      (ms : List Message)
      → All
          (λ r. (action_result r ≡ true) × (0 < gain py r) × (r.content ≢ omitted_result))
          (omittable ms)
  unfolding as_tool
  omittable-All [] = tt
  omittable-All (user id content ∷ ms) = omittable-All ms
  omittable-All (assistant m ∷ ms) = omittable-All ms
  omittable-All (tool r ∷ ms) = elim (Bool-cases (worth r)) [
    | inl e ↦ rw e ((ground arith, ground arith, worth-ne-omitted r e), omittable-All ms)
    | inr e ↦ rw e (omittable-All ms)
  ]

module _ (py : Python) (limits : Limits) (action_result : ToolMessage → Bool)
    (forgotten : Message → Bool) where
  -- All results worth omitting in the older exchanges give way together, each to its placeholder,
  -- once they save the trigger; below it none does.
  pub omit_within-omittable :
      (history : List Message) (groups : List (List Message))
      → exchanges history ≡ ok groups
      → let rs = omittable py action_result (concat (older py forgotten groups)) in
        omit_within py limits history action_result forgotten
        ≡ ok (
            if leb limits.omit_trigger (savings py action_result 0 rs)
            then map (placeholder py) rs
            else [])
  unfolding omit_within
  omit_within-omittable history groups e =
      let same = omit_from-omittable py action_result [] 0 (concat (older py forgotten groups)) in
      ground (arith, same)

  -- The eligible exchanges are the older ones and then the newest, at most two, whose results stay.
  pub older_split :
      (groups : List (List Message))
      → (newest : List (List Message)) × (filter (eligible py forgotten) groups
          ≡ older py forgotten groups ++ newest)
        × (length newest ≤ keep_result_exchanges)
  unfolding older
  older_split groups =
      let done = filter (eligible py forgotten) groups in
      let n = length done - keep_result_exchanges in
      (drop n done, sym (take-append-drop n done), omega (arith, length-drop n done))

  -- A batch that omits anything omits only Action results larger than their placeholders, none of
  -- them already omitted, and saves at least the trigger.
  pub omit_within_saves :
      (history : List Message) (groups : List (List Message)) (ps : List ToolMessage)
      → exchanges history ≡ ok groups
      → omit_within py limits history action_result forgotten ≡ ok ps
      → ps ≢ []
      → (rs : List ToolMessage) × (ps ≡ map (placeholder py) rs)
        × All (λ r. (action_result r ≡ true) × (0 < gain py r) × (r.content ≢ omitted_result)) rs
        × (limits.omit_trigger ≤ savings py action_result 0 rs)
  omit_within_saves history groups ps e h some_omitted =
      let rs = omittable py action_result (concat (older py forgotten groups)) in
      let same = omit_within-omittable history groups e in
      (
        rs,
        ground arith,
        omittable-All py action_result (concat (older py forgotten groups)),
        ground arith,
      )
