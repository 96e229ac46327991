-- ===== src/Budget/Split.antt =====
-- How `exchanges` (runtime/src/budget.rs) splits a history: the loop over indices and slices meets a
-- split that grows groups of messages.
use mathlib.Core.Option
use shimpz_brain.Base.{
  ℕ, zero, suc, ◌+◌, ◌-◌, ◌≤◌, ◌<◌, Bool, true, false, not, ◌&&◌, none, some, List, [], ◌∷◌, ◌++◌,
  ◌≡◌, refl, sym, ap, ◌∙◌, ◌==◌, if◌then◌else◌, length, last, take, drop, get_elem?, is_empty,
  is_nil, Result, ok, err, arith, Bool-cases, Option-cases, inl, inr,
}
use shimpz_brain.Conversation.{Message, message_id, is_user}
use shimpz_brain.Budget.{FitError, state, is_bridge, joins, starts_from, slice, cut, exchanges}

-- The last group with one more message.
abbrev pub extend : List (List Message) → Message → List (List Message)
extend [] m = []
extend (g ∷ []) m = (g ++ m ∷ []) ∷ []
extend (g ∷ h ∷ gs) m = g ∷ extend (h ∷ gs) m

-- Whether the last group is a lone bridge.
abbrev pub lone_bridge : List Message → Bool
lone_bridge (b ∷ []) = is_bridge b
lone_bridge _ = false

abbrev pub awaits : List (List Message) → Bool
awaits gs = elim (last gs) [ none ↦ false | some g ↦ lone_bridge g ]

-- The reference: the groups so far, and the messages still to come.
unfoldable pub split_on : List (List Message) → List Message → Result (List (List Message)) FitError
split_on gs [] = ok gs
split_on gs (m ∷ rest) =
    let opens = is_user m && not (awaits gs) in
    let next = if opens then gs ++ (m ∷ []) ∷ [] else extend gs m in
    let later = split_on next rest in
    if is_empty (message_id m)
    then err state
    else if not opens && is_nil gs
    then err state
    else later

-- Ascending starts, all below `stop`.
abbrev pub Ascending : List ℕ → ℕ → Type 0
Ascending [] stop = Unit
Ascending (s ∷ []) stop = s < stop
Ascending (s ∷ t ∷ starts) stop = (s < t) × Ascending (t ∷ starts) stop

get_elem?-lt : (ms : List Message) (i : ℕ) {m : Message} → get_elem? ms i ≡ some m → i < length ms
get_elem?-lt [] i h = absurd (cc)
get_elem?-lt (x ∷ ms) zero h = omega arith
get_elem?-lt (x ∷ ms) (suc i) h = omega (arith, get_elem?-lt ms i h)

take_one :
    (ms : List Message) (k : ℕ) (m : Message)
    → get_elem? ms k ≡ some m
    → take (suc k) ms ≡ take k ms ++ m ∷ []
take_one [] k m h = absurd (cc)
take_one (x ∷ ms) zero m h = ground arith
take_one (x ∷ ms) (suc k) m h = ap (λ (r : List Message). x ∷ r) (take_one ms k m h)

get_elem?-drop : (ms : List Message) (s k : ℕ) → get_elem? (drop s ms) k ≡ get_elem? ms (s + k)
get_elem?-drop ms zero k = ap (get_elem? ms) (omega arith)
get_elem?-drop [] (suc s) k = refl
get_elem?-drop (x ∷ ms) (suc s) k =
    let e : suc s + k ≡ suc (s + k) = omega arith in rw e (get_elem?-drop ms s k)

drop_step :
    (ms : List Message) (i : ℕ) (m : Message) (r : List Message)
    → drop i ms ≡ m ∷ r
    → (get_elem? ms i ≡ some m) × (drop (suc i) ms ≡ r)
drop_step [] zero m r h = absurd (cc)
drop_step [] (suc i) m r h = absurd (cc)
drop_step (x ∷ ms) zero m r h = ground arith
drop_step (x ∷ ms) (suc i) m r h = drop_step ms i m r h

slice_extend :
    (ms : List Message) (s i : ℕ) (m : Message)
    → s ≤ i
    → get_elem? ms i ≡ some m
    → slice ms s (suc i) ≡ slice ms s i ++ m ∷ []
unfolding slice
slice_extend ms s i m le h =
    let e : suc i - s ≡ suc (i - s) = omega arith in
    let f : s + (i - s) ≡ i = omega arith in
    rw e (take_one (drop s ms) (i - s) m (get_elem?-drop ms s (i - s) ∙ ap (get_elem? ms) f ∙ h))

slice_self : (ms : List Message) (i : ℕ) → slice ms i i ≡ []
unfolding slice
slice_self ms i = let e : i - i ≡ 0 = omega arith in rw e

cut-extend :
    (ms : List Message) (i : ℕ) (m : Message) (starts : List ℕ)
    → Ascending starts i
    → get_elem? ms i ≡ some m
    → cut ms (suc i) starts ≡ extend (cut ms i starts) m
unfolding cut
cut-extend ms i m [] a h = refl
cut-extend ms i m (s ∷ []) a h =
    ap (λ (g : List Message). g ∷ []) (slice_extend ms s i m (omega arith) h)
cut-extend ms i m (s ∷ t ∷ []) (_, a) h =
    ap (λ (gs : List (List Message)). slice ms s t ∷ gs) (cut-extend ms i m (t ∷ []) a h)
cut-extend ms i m (s ∷ t ∷ u ∷ r) (_, a) h =
    ap (λ (gs : List (List Message)). slice ms s t ∷ gs) (cut-extend ms i m (t ∷ u ∷ r) a h)

cut_open :
    (ms : List Message) (i : ℕ) (m : Message) (starts : List ℕ)
    → get_elem? ms i ≡ some m
    → cut ms (suc i) (starts ++ i ∷ []) ≡ cut ms i starts ++ (m ∷ []) ∷ []
unfolding cut
cut_open ms i m [] h = rw (slice_extend ms i i m (omega arith) h) (rw (slice_self ms i))
cut_open ms i m (s ∷ []) h =
    ap (λ (gs : List (List Message)). slice ms s i ∷ gs) (cut_open ms i m [] h)
cut_open ms i m (s ∷ t ∷ r) h =
    ap (λ (gs : List (List Message)). slice ms s t ∷ gs) (cut_open ms i m (t ∷ r) h)

last-cut :
    (ms : List Message) (i : ℕ) (starts : List ℕ)
    → last (cut ms i starts) ≡ Option.map (λ s. slice ms s i) (last starts)
unfolding cut
last-cut ms i [] = refl
last-cut ms i (s ∷ []) = refl
last-cut ms i (s ∷ t ∷ []) = refl
last-cut ms i (s ∷ t ∷ u ∷ r) = last-cut ms i (t ∷ u ∷ r)

last-lt : (starts : List ℕ) (i s : ℕ) → Ascending starts i → last starts ≡ some s → s < i
last-lt [] i s a h = absurd (cc)
last-lt (t ∷ []) i s a h = ground arith
last-lt (t ∷ u ∷ []) i s (_, a) h = last-lt (u ∷ []) i s a h
last-lt (t ∷ u ∷ v ∷ r) i s (_, a) h = last-lt (u ∷ v ∷ r) i s a h

lone_take :
    (d : List Message) (k : ℕ)
    → 1 ≤ k
    → k ≤ length d
    → lone_bridge (take k d)
      ≡ ((k == 1) && elim (get_elem? d 0) [ none ↦ false | some m ↦ is_bridge m ])
lone_take [] k h le = absurd (omega arith)
lone_take (x ∷ d) zero h le = absurd (omega arith)
lone_take (x ∷ []) (suc zero) h le = refl
lone_take (x ∷ []) (suc (suc k)) h le = absurd (omega arith)
lone_take (x ∷ y ∷ d) (suc zero) h le = refl
lone_take (x ∷ y ∷ d) (suc (suc k)) h le = ground arith

length-drop : (ms : List Message) (s : ℕ) → length (drop s ms) ≡ length ms - s
length-drop ms zero = omega arith
length-drop [] (suc s) = omega arith
length-drop (x ∷ ms) (suc s) = omega (arith, length-drop ms s)

-- A slice that ends at `i` is a lone bridge exactly when it is one bridge long.
lone_slice :
    (ms : List Message) (s i : ℕ)
    → s < i
    → i ≤ length ms
    → lone_bridge (slice ms s i)
      ≡ ((i - s == 1) && elim (get_elem? ms s) [ none ↦ false | some m ↦ is_bridge m ])
unfolding slice
lone_slice ms s i lt le =
    let e : s + 0 ≡ s = omega arith in
    rw (← (get_elem?-drop ms s 0 ∙ ap (get_elem? ms) e))
      (lone_take (drop s ms) (i - s) (omega arith) (omega (arith, length-drop ms s)))

awaits-cut :
    (ms : List Message) (i : ℕ) (starts : List ℕ)
    → Ascending starts i
    → i ≤ length ms
    → awaits (cut ms i starts) ≡ joins ms i starts
unfolding joins
awaits-cut ms i starts a le = elim (Option-cases (last starts)) [
  | inl e ↦ rw (last-cut ms i starts, awaits) (rw (e, joins))
  | inr (s, e) ↦
      rw (last-cut ms i starts, awaits)
        (rw (e, joins) (lone_slice ms s i (last-lt starts i s a e) le))
]

is_nil-cut :
    (ms : List Message) (i : ℕ) (starts : List ℕ) → is_nil (cut ms i starts) ≡ is_nil starts
unfolding cut
is_nil-cut ms i [] = refl
is_nil-cut ms i (s ∷ []) = refl
is_nil-cut ms i (s ∷ t ∷ r) = refl

Ascending-weaken : (starts : List ℕ) (i : ℕ) → Ascending starts i → Ascending starts (suc i)
Ascending-weaken [] i a = tt
Ascending-weaken (s ∷ []) i a = omega arith
Ascending-weaken (s ∷ t ∷ r) i (p, a) = (p, Ascending-weaken (t ∷ r) i a)

Ascending-concat :
    (starts : List ℕ) (i : ℕ) → Ascending starts i → Ascending (starts ++ i ∷ []) (suc i)
Ascending-concat [] i a = omega arith
Ascending-concat (s ∷ []) i a = (omega arith, omega arith)
Ascending-concat (s ∷ t ∷ r) i (p, a) = (p, Ascending-concat (t ∷ r) i a)

abbrev cut_result : List Message → Result (List ℕ) FitError → Result (List (List Message)) FitError
cut_result ms r = elim r [ ok starts ↦ ok (cut ms (length ms) starts) | err e ↦ err e ]

cut_result_if :
    (ms : List Message) (b : Bool) (r : Result (List ℕ) FitError)
    → cut_result ms (if b then err state else r) ≡ (if b then err state else cut_result ms r)
cut_result_if ms true r = refl
cut_result_if ms false r = refl

drop_all : (ms : List Message) (i : ℕ) → drop i ms ≡ [] → i ≤ length ms → i ≡ length ms
drop_all ms i h le = let e : length (drop i ms) ≡ 0 = ap length h in omega (arith, length-drop ms i)

-- The loop over the indices, cut into slices, is the split of the messages to come.
starts_from-split_on :
    (ms : List Message) (i : ℕ) (starts : List ℕ) (rest : List Message)
    → drop i ms ≡ rest
    → Ascending starts i
    → i ≤ length ms
    → cut_result ms (starts_from ms i starts rest) ≡ split_on (cut ms i starts) rest
unfolding starts_from split_on
starts_from-split_on ms i starts [] h a le =
    ap (λ (k : ℕ). ok (cut ms k starts)) (sym (drop_all ms i h le))
starts_from-split_on ms i starts (m ∷ rest) h a le =
    let (here, after) = drop_step ms i m rest h in
    let lt = get_elem?-lt ms i here in
    rw (awaits-cut ms i starts a le, is_nil-cut ms i starts)
      (elim (Bool-cases (is_user m && not (joins ms i starts))) [
        | inl e ↦
            let ih =
              starts_from-split_on ms (suc i) (starts ++ i ∷ []) rest after
                (Ascending-concat starts i a) lt in
            rw e (rw (← cut_open ms i m starts here) (rw (← ih) (simp cut_result_if)))
        | inr e ↦
            let ih =
              starts_from-split_on ms (suc i) starts rest after (Ascending-weaken starts i a) lt in
            rw e (rw (← cut-extend ms i m starts a here) (rw (← ih) (simp cut_result_if)))
      ])

-- On every history, the split by the indices of its starts is that of one pass from left to right,
-- which opens a group at each user message that does not follow a bridge: the same groups, or the
-- same refusal.
pub exchanges-split_on : (ms : List Message) → exchanges ms ≡ split_on [] ms
unfolding exchanges cut
exchanges-split_on ms = starts_from-split_on ms 0 [] ms refl tt (omega arith)
