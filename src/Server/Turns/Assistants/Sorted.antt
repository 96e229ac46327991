-- ===== src/Server/Turns/Assistants/Sorted.antt =====
-- Sorting an Assistant's Actions keeps them (runtime/src/server/turn_input.rs, `assistant`).
use shimpz_brain.Base.{
  suc, ◌≡◌, ◌≢◌, refl, sym, inl, inr, arith, String, List, [], ◌∷◌, map, All, Bool-cases, length,
}
use shimpz_brain.Base.Sort.{insert_by, sort_by, str_leb}
use shimpz_brain.Attachments.Admission.Bounds.{Distinct}
use shimpz_brain.Turn.Context.{ActionDefinition}
use shimpz_brain.Server.Turns.Assistants.{schemas_of}
use shimpz_brain.Server.Turns.Assistants.Nodes.{nodes_in}

module _ {A : Type 0} (key : A → String) where
  All-insert :
      (P : String → Type 0) (x : A) (ys : List A)
      → P (key x)
      → All P (map key ys)
      → All P (map key (insert_by key x ys))
  unfolding insert_by
  All-insert P x [] here there = (here, tt)
  All-insert P x (y ∷ ys) here (first, there) = elim (Bool-cases (str_leb (key x) (key y))) [
    | inl e ↦ rw e (here, (first, there))
    | inr e ↦ rw e (first, All-insert P x ys here there)
  ]

  Distinct-insert :
      (x : A) (ys : List A) → Distinct (map key (x ∷ ys)) → Distinct (map key (insert_by key x ys))
  unfolding insert_by
  Distinct-insert x [] apart = apart
  Distinct-insert x (y ∷ ys) ((first, there), (later, rest)) =
      elim (Bool-cases (str_leb (key x) (key y))) [
        | inl e ↦ rw e ((first, there), (later, rest))
        | inr e ↦ rw e (
          All-insert (λ z. z ≢ key y) x ys (λ same. first (sym same)) later,
          Distinct-insert x ys (there, rest),
        )
      ]

  All-sort :
      (P : String → Type 0) (xs : List A) → All P (map key xs) → All P (map key (sort_by key xs))
  unfolding sort_by
  All-sort P [] all = tt
  All-sort P (x ∷ xs) (here, there) = All-insert P x (sort_by key xs) here (All-sort P xs there)

  pub Distinct-sort : (xs : List A) → Distinct (map key xs) → Distinct (map key (sort_by key xs))
  unfolding sort_by
  Distinct-sort [] apart = tt
  Distinct-sort (x ∷ xs) (here, there) =
      Distinct-insert x (sort_by key xs) (All-sort (λ z. z ≢ key x) xs here, Distinct-sort xs there)

  length-insert : (x : A) (ys : List A) → length (insert_by key x ys) ≡ suc (length ys)
  unfolding insert_by
  length-insert x [] = refl
  length-insert x (y ∷ ys) = elim (Bool-cases (str_leb (key x) (key y))) [
    | inl e ↦ rw e refl
    | inr e ↦ rw (e, length-insert x ys) refl
  ]

  pub length-sort : (xs : List A) → length (sort_by key xs) ≡ length xs
  unfolding sort_by
  length-sort [] = refl
  length-sort (x ∷ xs) = rw (length-insert x (sort_by key xs), length-sort xs) refl

nodes-insert :
    (key : ActionDefinition → String) (x : ActionDefinition) (ys : List ActionDefinition)
    → nodes_in (schemas_of (insert_by key x ys)) ≡ nodes_in (schemas_of (x ∷ ys))
unfolding insert_by
nodes-insert key x [] = refl
nodes-insert key x (y ∷ ys) = elim (Bool-cases (str_leb (key x) (key y))) [
  | inl e ↦ rw e refl
  | inr e ↦ rw e (let later = nodes-insert key x ys in omega arith)
]

pub nodes-sort :
    (key : ActionDefinition → String) (xs : List ActionDefinition)
    → nodes_in (schemas_of (sort_by key xs)) ≡ nodes_in (schemas_of xs)
unfolding sort_by
nodes-sort key [] = refl
nodes-sort key (x ∷ xs) =
    let first = nodes-insert key x (sort_by key xs) in let later = nodes-sort key xs in omega arith

module _ {A : Type 0} (key : A → String) (P : A → Type 0) where
  All-insert_by : (x : A) (ys : List A) → P x → All P ys → All P (insert_by key x ys)
  unfolding insert_by
  All-insert_by x [] here there = (here, tt)
  All-insert_by x (y ∷ ys) here (first, there) = elim (Bool-cases (str_leb (key x) (key y))) [
    | inl e ↦ rw e (here, (first, there))
    | inr e ↦ rw e (first, All-insert_by x ys here there)
  ]

  pub All-sort_by : (xs : List A) → All P xs → All P (sort_by key xs)
  unfolding sort_by
  All-sort_by [] all = tt
  All-sort_by (x ∷ xs) (here, there) = All-insert_by x (sort_by key xs) here (All-sort_by xs there)
