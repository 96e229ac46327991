-- ===== src/Json/Types.antt =====
-- The values of the strict JSON reader (vendor/strict-json/src/value.rs), their lists and their
-- members, and the readers of one member.
use shimpz_brain.Base.{
  ℕ, String, str_eq, Bool, Option, none, some, List, [], ◌∷◌, ◌≡◌, refl, ap, if◌then◌else◌,
}
use shimpz_brain.Base.Int.{ℤ}

-- `Int` holds an `i64`, `BigInt` the decimal text of any other integer, `Float` the 64 bits.
pub data Number : Type 0 where
  int : ℤ → Number
  big_int : String → Number
  float : ℕ → Number

mutual
  pub data Value : Type 0 where
    null : Value
    bool : Bool → Value
    num : Number → Value
    str : String → Value
    arr : Values → Value
    obj : Members → Value

  -- `Vec<Value>`.
  pub data Values : Type 0 where
    nil : Values
    cons : Value → Values → Values

  -- `Vec<(String, Value)>`.
  pub data Members : Type 0 where
    end : Members
    member : String → Value → Members → Members

abbrev pub values : Values → List Value
values nil = []
values (cons v vs) = v ∷ values vs

abbrev pub of_values : List Value → Values
of_values [] = nil
of_values (v ∷ vs) = cons v (of_values vs)

abbrev pub pairs : Members → List (String × Value)
pairs end = []
pairs (member k v ms) = (k, v) ∷ pairs ms

abbrev pub of_pairs : List (String × Value) → Members
of_pairs [] = end
of_pairs ((k, v) ∷ ms) = member k v (of_pairs ms)

pub values-of_values : (vs : List Value) → values (of_values vs) ≡ vs
values-of_values [] = refl
values-of_values (v ∷ vs) = ap (λ (r : List Value). v ∷ r) (values-of_values vs)

pub pairs-of_pairs : (ms : List (String × Value)) → pairs (of_pairs ms) ≡ ms
pairs-of_pairs [] = refl
pairs-of_pairs ((k, v) ∷ ms) = ap (λ (r : List (String × Value)). (k, v) ∷ r) (pairs-of_pairs ms)

-- The first member of that name.
abbrev pub find_member : String → Members → Option Value
find_member key end = none
find_member key (member name v ms) =
    let rest = find_member key ms in if str_eq name key then some v else rest

unfoldable pub get : Value → String → Option Value
get (obj ms) key = find_member key ms
get _ key = none
