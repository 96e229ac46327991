-- ===== src/Base/Sort.antt =====
-- `sort_unstable` of texts. UTF-8 keeps the order of the code points.
use Prim.Native.Char.{code}
use Prim.Native.String.{String}
use mathlib.Core.Bool.{Bool, true, false, ◌&&◌, ◌||◌}
use mathlib.Core.List.{List, [], ◌∷◌}
use shimpz_brain.Base.Tests.{ltb, ◌==◌, if◌then◌else◌}

unfoldable pub str_leb : String → String → Bool
str_leb String.[] t = true
str_leb (String.◌∷◌ c s) String.[] = false
str_leb (String.◌∷◌ c s) (String.◌∷◌ d t) =
    let rest = str_leb s t in ltb (code c) (code d) || ((code c == code d) && rest)

unfoldable pub insert : String → List String → List String
insert x [] = x ∷ []
insert x (y ∷ ys) = let later = insert x ys in if str_leb x y then x ∷ y ∷ ys else y ∷ later

unfoldable pub sorted : List String → List String
unfolding insert str_leb
sorted [] = []
sorted (x ∷ xs) = insert x (sorted xs)

-- `sort_by` of a key, which keeps the order of equal keys.
unfoldable pub insert_by : {A : Type 0} → (A → String) → A → List A → List A
unfolding str_leb
insert_by key x [] = x ∷ []
insert_by key x (y ∷ ys) =
    let later = insert_by key x ys in if str_leb (key x) (key y) then x ∷ y ∷ ys else y ∷ later

unfoldable pub sort_by : {A : Type 0} → (A → String) → List A → List A
unfolding insert_by
sort_by key [] = []
sort_by key (x ∷ xs) = insert_by key x (sort_by key xs)
