-- ===== src/Common/Table.antt =====
-- A dictionary with text keys: the files of one directory by name, or a Python dict.
use Prim.Native.String.{String}
use mathlib.Core.Path.{◌≡◌, refl}
use mathlib.Core.Option.{Option, none, some}
use mathlib.Core.List.{List, [], ◌∷◌}
use native.Mathlib.Omega.{arith}
use text.Mathlib.TextEquality.{eq_iff}
use text.Mathlib.TextPositions.{eq_refl}
use lean_fm.Common.Tests.{if◌then◌else◌}
use lean_fm.Common.Text.{◌==◌}

abbrev pub Table {ℓ} : Type ℓ → Type ℓ
Table V = List (String × V)

module _ {ℓ} {V : Type ℓ} where
  unfoldable pub lookup : (key : String) → Table V → Option V
  lookup key [] = none
  lookup key ((name, value) ∷ entries) = if name == key then some value else lookup key entries

  -- `table[key] = value`, or a file written whole
  unfoldable pub insert : (key : String) → V → Table V → Table V
  insert key value [] = (key, value) ∷ []
  insert key value ((name, old) ∷ entries) =
      if name == key then (key, value) ∷ entries else (name, old) ∷ insert key value entries

  pub lookup-insert :
      (key wanted : String) (value : V) (entries : Table V)
      → lookup wanted (insert key value entries)
        ≡ (if key == wanted then some value else lookup wanted entries)
  unfolding lookup insert
  lookup-insert key wanted value [] = refl
  lookup-insert key wanted value ((name, old) ∷ entries) =
      let rest = lookup-insert key wanted value entries in
      ground (arith, rest, eq_iff name key, eq_iff name wanted, eq_iff key wanted)

  pub lookup-insert_self :
      (key : String) (value : V) (entries : Table V)
      → lookup key (insert key value entries) ≡ some value
  lookup-insert_self key value entries = simp (lookup-insert, eq_refl)
