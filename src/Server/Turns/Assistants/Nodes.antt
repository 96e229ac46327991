-- ===== src/Server/Turns/Assistants/Nodes.antt =====
-- Counting the values of a schema: runtime/src/server/turn_input.rs, `schema_nodes` and the loop of
-- `assistant` over its schemas.
use Prim.Native.Nat.{min}
use shimpz_brain.Base.{
  ℕ, ◌+◌, ◌-◌, ◌≤◌, ◌<◌, ◌≡◌, refl, ◌⊎◌, inl, inr, arith, Bool, true, false, not, ◌&&◌, List, [],
  ◌∷◌, ltb, if◌then◌else◌,
}
use shimpz_brain.Json.Types.{
  Value, Values, Members, null, bool, num, str, arr, obj, nil, cons, end, member,
}
use shimpz_brain.Server.Turns.Assistants.{
  count_nodes, count_items, count_members, schema_nodes, schemas_fit,
}

-- All the values that a value holds, itself one of them.
mutual
  pub nodes : Value → ℕ
  nodes (arr vs) = 1 + item_nodes vs
  nodes (obj ms) = 1 + member_nodes ms
  nodes v = 1

  pub item_nodes : Values → ℕ
  item_nodes nil = 0
  item_nodes (cons v vs) = nodes v + item_nodes vs

  pub member_nodes : Members → ℕ
  member_nodes end = 0
  member_nodes (member name v ms) = nodes v + member_nodes ms

-- Two counts that are the same, or both past the limit.
abbrev Same : ℕ → ℕ → ℕ → Type 0
Same limit a b = (a ≡ b) ⊎ ((limit < a) × (limit < b))

past-Same :
    (limit total children real : ℕ) (past : Bool)
    → ltb limit total ≡ past
    → Same limit children (total + real)
    → Same limit (if past then total else children) (total + real)
past-Same limit total children real true e h =
    let over : limit < total = ground arith in inr (over, omega arith)
past-Same limit total children real false e h = h

then-Same :
    (limit total a b n r : ℕ)
    → Same limit n (total + a)
    → Same limit r (n + b)
    → Same limit r (total + (a + b))
then-Same limit total a b n r (inl e) (inl f) = inl (omega arith)
then-Same limit total a b n r (inl e) (inr f) = inr (omega arith, omega arith)
then-Same limit total a b n r (inr e) (inl f) = inr (omega arith, omega arith)
then-Same limit total a b n r (inr e) (inr f) = inr (omega arith, omega arith)

regroup :
    (limit total real n : ℕ) → Same limit n (total + 1 + real) → Same limit n (total + (1 + real))
regroup limit total real n (inl e) = inl (omega arith)
regroup limit total real n (inr h) = inr (omega arith, omega arith)

mutual
  unfolding count_nodes nodes

  nodes-Same :
      (v : Value) (limit total : ℕ) → Same limit (count_nodes v limit total) (total + nodes v)
  nodes-Same null limit total = inl refl
  nodes-Same (bool b) limit total = inl refl
  nodes-Same (num n) limit total = inl refl
  nodes-Same (str s) limit total = inl refl
  nodes-Same (arr vs) limit total = regroup limit total (item_nodes vs) _ (
      past-Same limit (total + 1) (count_items vs limit (total + 1)) (item_nodes vs) _ refl
        (items-Same vs limit (total + 1)))
  nodes-Same (obj ms) limit total = regroup limit total (member_nodes ms) _ (
      past-Same limit (total + 1) (count_members ms limit (total + 1)) (member_nodes ms) _ refl
        (members-Same ms limit (total + 1)))

  items-Same :
      (vs : Values) (limit total : ℕ)
      → Same limit (count_items vs limit total) (total + item_nodes vs)
  items-Same nil limit total = inl (omega arith)
  items-Same (cons v vs) limit total =
      then-Same limit total (nodes v) (item_nodes vs) _ _ (nodes-Same v limit total)
        (items-Same vs limit (count_nodes v limit total))

  members-Same :
      (ms : Members) (limit total : ℕ)
      → Same limit (count_members ms limit total) (total + member_nodes ms)
  members-Same end limit total = inl (omega arith)
  members-Same (member name v ms) limit total =
      then-Same limit total (nodes v) (member_nodes ms) _ _ (nodes-Same v limit total)
        (members-Same ms limit (count_nodes v limit total))

-- Counting stops past the limit, and yet answers the number of values, or one past the limit.
pub schema_nodes-nodes : (v : Value) (limit : ℕ) → schema_nodes v limit ≡ min (nodes v) (limit + 1)
unfolding schema_nodes
schema_nodes-nodes v limit = elim (nodes-Same v limit 0) [
  | inl e ↦ omega arith
  | inr h ↦ omega arith
]

abbrev pub nodes_in : List Value → ℕ
nodes_in [] = 0
nodes_in (v ∷ vs) = nodes v + nodes_in vs

fits_first :
    (remaining n : ℕ) (rest : Bool)
    → not (ltb remaining n) && rest ≡ true
    → (n ≤ remaining) × (rest ≡ true)
fits_first remaining n rest h = (ground arith, ground arith)

pub schemas_fit-nodes :
    (remaining : ℕ) (schemas : List Value)
    → schemas_fit remaining schemas ≡ true
    → nodes_in schemas ≤ remaining
unfolding schemas_fit
schemas_fit-nodes remaining [] h = omega arith
schemas_fit-nodes remaining (schema ∷ schemas) h =
    let counted = schema_nodes-nodes schema remaining in
    let (here, later) =
      fits_first remaining (schema_nodes schema remaining)
        (schemas_fit (remaining - schema_nodes schema remaining) schemas) h in
    let rest = schemas_fit-nodes (remaining - schema_nodes schema remaining) schemas later in
    omega arith
