-- ===== src/Base/Table.antt =====
-- A map with text keys, as an association list in which a key stands once.
use Prim.Native.String.{String}
use mathlib.Core.Path.{◌≡◌}
use mathlib.Core.Option.{Option, none, some}
use mathlib.Core.List.{List, [], ◌∷◌}
use text.Mathlib.Text.{◌==◌ as str_eq}
use text.Mathlib.TextEquality.{eq_iff}
use native.Mathlib.Omega.{arith}
use shimpz_brain.Base.Tests.{if◌then◌else◌}

abbrev pub Table {ℓ} : Type ℓ → Type ℓ
Table V = List (String × V)

module _ {ℓ} {V : Type ℓ} where
  unfoldable pub lookup : Table V → String → Option V
  lookup [] key = none
  lookup ((name, v) ∷ rest) key =
      let later = lookup rest key in if str_eq name key then some v else later

  unfoldable pub remove : Table V → String → Table V
  remove [] key = []
  remove ((name, v) ∷ rest) key =
      let later = remove rest key in if str_eq name key then later else (name, v) ∷ later

  unfoldable pub put : Table V → String → V → Table V
  unfolding remove
  put table key v = (key, v) ∷ remove table key

  pub lookup-remove :
      (table : Table V) (key name : String)
      → lookup (remove table key) name ≡ (if str_eq key name then none else lookup table name)
  unfolding lookup remove
  lookup-remove [] key name = ground arith
  lookup-remove ((other, v) ∷ rest) key name =
      ground
        (arith, lookup-remove rest key name, eq_iff other key, eq_iff key name, eq_iff other name)

  pub lookup-put :
      (table : Table V) (key name : String) (v : V)
      → lookup (put table key v) name ≡ (if str_eq key name then some v else lookup table name)
  unfolding lookup put
  lookup-put table key name v = ground (arith, lookup-remove table key name)

pub ruleset table_laws = (lookup-remove, lookup-put)
