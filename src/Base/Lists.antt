-- ===== src/Base/Lists.antt =====
-- Lists measured by native numbers, and the iterator methods that the source uses.
use Prim.Native.Nat.{ℕ, zero, suc, ◌+◌, ◌≤◌}
use mathlib.Core.Path.{◌≡◌, refl, ap}
use mathlib.Core.Bool.{Bool, true, false, ◌&&◌, ◌||◌}
use mathlib.Core.Option.{Option, none, some}
use mathlib.Core.List.{List, [], ◌∷◌, ◌++◌, map}
use native.Mathlib.Omega.{arith}
use shimpz_brain.Base.Tests.{if◌then◌else◌, ◌>>=◌}

module _ {ℓ} {A : Type ℓ} where
  abbrev pub length : List A → ℕ
  length [] = 0
  length (x ∷ xs) = suc (length xs)

  abbrev pub any : (A → Bool) → List A → Bool
  any p [] = false
  any p (x ∷ xs) = p x || any p xs

  abbrev pub all : (A → Bool) → List A → Bool
  all p [] = true
  all p (x ∷ xs) = p x && all p xs

  -- `Iterator::filter`, by a Boolean test.
  abbrev pub filter : (A → Bool) → List A → List A
  filter p [] = []
  filter p (x ∷ xs) = let rest = filter p xs in if p x then x ∷ rest else rest

  -- `Iterator::find`.
  abbrev pub find : (A → Bool) → List A → Option A
  find p [] = none
  find p (x ∷ xs) = let rest = find p xs in if p x then some x else rest

  -- `slice::last`.
  abbrev pub last : List A → Option A
  last [] = none
  last (x ∷ []) = some x
  last (x ∷ y ∷ xs) = last (y ∷ xs)

  abbrev pub concat : List (List A) → List A
  concat [] = []
  concat (xs ∷ xss) = xs ++ concat xss

  abbrev pub take : ℕ → List A → List A
  take zero xs = []
  take (suc n) [] = []
  take (suc n) (x ∷ xs) = x ∷ take n xs

  abbrev pub drop : ℕ → List A → List A
  drop zero xs = xs
  drop (suc n) [] = []
  drop (suc n) (x ∷ xs) = drop n xs

  abbrev pub get_elem? : List A → ℕ → Option A
  get_elem? [] i = none
  get_elem? (x ∷ xs) zero = some x
  get_elem? (x ∷ xs) (suc i) = get_elem? xs i

  abbrev pub is_nil : List A → Bool
  is_nil [] = true
  is_nil (x ∷ xs) = false

  pub is_nil→eq : (xs : List A) → is_nil xs ≡ true → xs ≡ []
  is_nil→eq [] h = refl
  is_nil→eq (x ∷ xs) h = absurd (cc)

  -- What holds of every element.
  abbrev pub All {κ} : (A → Type κ) → List A → Type κ
  All P [] = Unit
  All P (x ∷ xs) = P x × All P xs

  pub length-append : (xs ys : List A) → length (xs ++ ys) ≡ length xs + length ys
  length-append [] ys = omega arith
  length-append (x ∷ xs) ys = omega (arith, length-append xs ys)

  pub last-concat : (xs : List A) (x : A) → last (xs ++ x ∷ []) ≡ some x
  last-concat [] x = refl
  last-concat (y ∷ []) x = refl
  last-concat (y ∷ z ∷ xs) x = last-concat (z ∷ xs) x

  pub All-append {κ} : (P : A → Type κ) (xs ys : List A) → All P xs → All P ys → All P (xs ++ ys)
  All-append P [] ys h k = k
  All-append P (x ∷ xs) ys (p, h) k = (p, All-append P xs ys h k)

  pub filter-le : (p : A → Bool) (xs : List A) → length (filter p xs) ≤ length xs
  filter-le p [] = omega arith
  filter-le p (x ∷ xs) = ground (arith, filter-le p xs)

module _ {ℓ κ} {A : Type ℓ} {B : Type κ} where
  -- `collect::<Option<Vec<_>>>` of a mapped iterator.
  abbrev pub collect : (A → Option B) → List A → Option (List B)
  collect f [] = some []
  collect f (x ∷ xs) = f x >>= λ y. collect f xs >>= λ ys. some (y ∷ ys)

  abbrev pub filter_map : (A → Option B) → List A → List B
  filter_map f [] = []
  filter_map f (x ∷ xs) =
      let rest = filter_map f xs in elim (f x) [ none ↦ rest | some y ↦ y ∷ rest ]

  pub length-map : (f : A → B) (xs : List A) → length (map f xs) ≡ length xs
  length-map f [] = refl
  length-map f (x ∷ xs) = ap suc (length-map f xs)

  -- Decoding what was encoded element by element.
  pub collect-map :
      (f : B → A) (g : A → Option B)
      → ((x : B) → g (f x) ≡ some x)
      → (xs : List B) → collect g (map f xs) ≡ some xs
  collect-map f g h [] = refl
  collect-map f g h (x ∷ xs) = rw (h x) (rw (collect-map f g h xs))

  -- What was collected came from the elements, one for one.
  pub collect-length :
      (f : A → Option B) (xs : List A) (ys : List B)
      → collect f xs ≡ some ys
      → length ys ≡ length xs
  collect-length f [] ys h = ground arith
  collect-length f (x ∷ xs) ys h = grind (arith, collect-length f xs)

module _ {ℓ κ μ} {A : Type ℓ} {B : Type κ} (P : B → Type μ) where
  -- What each decoded element satisfies, all of them do.
  pub All-collect :
      (f : A → Option B)
      → ((x : A) (y : B) → f x ≡ some y → P y)
      → (xs : List A) (ys : List B) → collect f xs ≡ some ys
      → All P ys
  All-collect f h [] [] e = tt
  All-collect f h [] (y ∷ ys) e = absurd (cc)
  All-collect f h (x ∷ xs) [] e = absurd (ground arith)
  All-collect f h (x ∷ xs) (y ∷ ys) e = (h x y (ground arith), All-collect f h xs ys (ground arith))
