-- ===== src/Budget/Exchanges.antt =====
-- What `exchanges` (runtime/src/budget.rs) answers: a partition of the history into whole exchanges,
-- and exactly when there is none.
use shimpz_brain.Base.{
  Bool, true, false, not, ◌&&◌, List, [], ◌∷◌, ◌++◌, ◌≡◌, refl, sym, ap, ◌∙◌, concat, is_empty,
  is_nil, All, All-append, ok, arith, Bool-cases, inl, inr, append-nil, append_assoc,
}
use shimpz_brain.Conversation.{Message, message_id, is_user}
use shimpz_brain.Budget.{is_bridge, exchanges}
use shimpz_brain.Budget.Split.{split_on, extend, awaits, lone_bridge, exchanges-split_on}

abbrev pub NoUser : List Message → Type 0
NoUser = All (λ m. is_user m ≡ false)

-- What may follow the first message of an exchange: after a bridge, one message of any kind first.
abbrev pub FollowsHead : Bool → List Message → Type 0
FollowsHead true [] = Unit
FollowsHead true (m ∷ rest) = NoUser rest
FollowsHead false rest = NoUser rest

-- One user message and all that followed it; a bridge and the turn it preceded are one exchange.
abbrev pub IsExchange : List Message → Type 0
IsExchange [] = ⊥
IsExchange (u ∷ rest) = (is_user u ≡ true) × FollowsHead (is_bridge u) rest

abbrev pub HasId : Message → Type 0
HasId m = is_empty (message_id m) ≡ false

NoUser-concat :
    (ms : List Message) (m : Message) → NoUser ms → is_user m ≡ false → NoUser (ms ++ m ∷ [])
NoUser-concat ms m h e = All-append (λ m. is_user m ≡ false) ms (m ∷ []) h (e, tt)

-- A lone message with another behind it.
FollowsHead-one :
    (b u : Bool) (m : Message) → is_user m ≡ u → (u && not b) ≡ false → FollowsHead b (m ∷ [])
FollowsHead-one true u m e h = tt
FollowsHead-one false true m e h = absurd (cc)
FollowsHead-one false false m e h = (e, tt)

FollowsHead-nil : (b : Bool) → FollowsHead b []
FollowsHead-nil true = tt
FollowsHead-nil false = tt

FollowsHead-more :
    (b : Bool) (n : Message) (rest : List Message) (m : Message)
    → FollowsHead b (n ∷ rest)
    → is_user m ≡ false
    → FollowsHead b (n ∷ rest ++ m ∷ [])
FollowsHead-more true n rest m h e = NoUser-concat rest m h e
FollowsHead-more false n rest m (p, h) e = (p, NoUser-concat rest m h e)

IsExchange-concat :
    (g : List Message) (m : Message)
    → IsExchange g
    → (is_user m && not (lone_bridge g)) ≡ false
    → IsExchange (g ++ m ∷ [])
IsExchange-concat [] m h e = absurd h
IsExchange-concat (u ∷ []) m (p, h) e = (p, FollowsHead-one (is_bridge u) (is_user m) m refl e)
IsExchange-concat (u ∷ n ∷ rest) m (p, h) e =
    (p, FollowsHead-more (is_bridge u) n rest m h (ground arith))

All-extend :
    (gs : List (List Message)) (m : Message)
    → All IsExchange gs
    → (is_user m && not (awaits gs)) ≡ false
    → All IsExchange (extend gs m)
All-extend [] m h e = tt
All-extend (g ∷ []) m (p, _) e = (IsExchange-concat g m p e, tt)
All-extend (g ∷ h ∷ []) m (p, q) e = (p, All-extend (h ∷ []) m q e)
All-extend (g ∷ h ∷ k ∷ gs) m (p, q) e = (p, All-extend (h ∷ k ∷ gs) m q e)

concat-extend :
    (gs : List (List Message)) (m : Message)
    → is_nil gs ≡ false
    → concat (extend gs m) ≡ concat gs ++ m ∷ []
concat-extend [] m e = absurd (cc)
concat-extend (g ∷ []) m e = simp (append-nil)
concat-extend (g ∷ h ∷ []) m e = rw (concat-extend (h ∷ []) m refl) (sym (append_assoc g _ _))
concat-extend (g ∷ h ∷ k ∷ gs) m e =
    rw (concat-extend (h ∷ k ∷ gs) m refl) (sym (append_assoc g _ _))

concat-concat :
    (gs : List (List Message)) (m : Message) → concat (gs ++ (m ∷ []) ∷ []) ≡ concat gs ++ m ∷ []
concat-concat [] m = refl
concat-concat (g ∷ gs) m = rw (concat-concat gs m) (sym (append_assoc g _ _))

-- What a step of the split leads to.
module _ (gs : List (List Message)) (m : Message) (rest : List Message)
    {out : List (List Message)} where
  split_step :
      split_on gs (m ∷ rest) ≡ ok out
      → (HasId m)
        × (next : List (List Message)) × (split_on next rest ≡ ok out)
        × (concat next ≡ concat gs ++ m ∷ [])
        × (All IsExchange gs → All IsExchange next)
  unfolding split_on
  split_step h = elim (Bool-cases (is_user m && not (awaits gs))) [
    | inl e ↦ (
      ground arith,
      gs ++ (m ∷ []) ∷ [],
      ground arith,
      concat-concat gs m,
      λ ok_gs. All-append IsExchange gs _ ok_gs ((ground arith, FollowsHead-nil (is_bridge m)), tt),
    )
    | inr e ↦ (
      ground arith,
      extend gs m,
      ground arith,
      concat-extend gs m (ground arith),
      λ ok_gs. All-extend gs m ok_gs e,
    )
  ]

split_on_partition :
    (gs : List (List Message)) (rest : List Message) {out : List (List Message)}
    → split_on gs rest ≡ ok out
    → All IsExchange gs
    → All HasId rest × (concat out ≡ concat gs ++ rest) × All IsExchange out
unfolding split_on
split_on_partition gs [] h k = ground (arith, append-nil (concat gs))
split_on_partition gs (m ∷ rest) h k =
    let (has_id, next, later, same, keeps) = split_step gs m rest h in
    let (ids, whole, every) = split_on_partition next rest later (keeps k) in
    (
      (has_id, ids),
      whole ∙ ap (λ (r : List Message). r ++ rest) same ∙ append_assoc (concat gs) _ rest,
      every,
    )

is_nil-extend : (gs : List (List Message)) (m : Message) → is_nil (extend gs m) ≡ is_nil gs
is_nil-extend [] m = refl
is_nil-extend (g ∷ []) m = refl
is_nil-extend (g ∷ h ∷ gs) m = refl

is_nil-concat : (gs : List (List Message)) (g : List Message) → is_nil (gs ++ g ∷ []) ≡ false
is_nil-concat [] g = refl
is_nil-concat (h ∷ gs) g = refl

split_on_total :
    (gs : List (List Message)) (rest : List Message)
    → All HasId rest
    → is_nil gs ≡ false
    → (out : List (List Message)) × (split_on gs rest ≡ ok out)
unfolding split_on
split_on_total gs [] h e = (gs, refl)
split_on_total gs (m ∷ rest) (p, h) e = elim (Bool-cases (is_user m && not (awaits gs))) [
  | inl q ↦ rw (p, q) (split_on_total (gs ++ (m ∷ []) ∷ []) rest h (is_nil-concat gs _))
  | inr q ↦ rw (p, q, e) (split_on_total (extend gs m) rest h (is_nil-extend gs m ∙ e))
]

-- Every message has an id, and the first is a user's.
abbrev pub StartsWithUser : List Message → Type 0
StartsWithUser [] = Unit
StartsWithUser (m ∷ rest) = is_user m ≡ true

-- A history that splits is partitioned, in order: its exchanges joined are the history, each begins
-- with a user message followed by none but the one after a bridge, and every message has an id.
pub exchanges_partition :
    (ms : List Message) (gs : List (List Message))
    → exchanges ms ≡ ok gs
    → (concat gs ≡ ms) × All IsExchange gs × All HasId ms
exchanges_partition ms gs h =
    let (ids, whole, every) = split_on_partition [] ms (sym (exchanges-split_on ms) ∙ h) tt in
    (whole, every, ids)

-- A history whose messages all have ids and which is empty or begins with a user message splits.
pub exchanges_total :
    (ms : List Message)
    → All HasId ms
    → StartsWithUser ms
    → (gs : List (List Message)) × (exchanges ms ≡ ok gs)
unfolding split_on
exchanges_total [] h e = ([], exchanges-split_on [])
exchanges_total (m ∷ rest) (p, h) e =
    let (out, q) = split_on_total ((m ∷ []) ∷ []) rest h refl in
    (out, exchanges-split_on (m ∷ rest) ∙ rw (p, e) q)
