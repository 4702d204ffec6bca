-- ===== src/Prelude/Maps.antt =====
-- Go's `map[string]V`: an association list with its laws. A write replaces the old entry, so a map
-- that the operations build holds a key at most once (`Distinct`).
use mathlib.Core.Path.{◌≡◌, refl}
use mathlib.Core.Logic.{◌⊎◌}
use mathlib.Core.Bool.{Bool, true}
use mathlib.Core.List.{List, [], ◌∷◌}
use mathlib.Core.Option.{Option, none, some}
use native.Mathlib.Omega.{arith}
use Prim.Native.String.{String}
use text.Mathlib.Text.{◌==◌}
use text.Mathlib.TextEquality.{eq_iff}
use virt_platform_autopilot.Prelude.Tests.{if◌then◌else◌}

abbrev pub Map {ℓ} : Type ℓ → Type ℓ
Map V = List (String × V)

module _ {ℓ} {V : Type ℓ} where
  -- v, ok := m[k]
  unfoldable pub lookup : Map V → String → Option V
  lookup [] k = none
  lookup ((j, v) ∷ m) k = if j == k then some v else lookup m k

  -- delete(m, k)
  unfoldable pub delete : Map V → String → Map V
  delete [] k = []
  delete ((j, v) ∷ m) k = let rest = delete m k in if j == k then rest else (j, v) ∷ rest

  -- m[k] = v
  unfoldable pub insert : Map V → String → V → Map V
  insert m k v = (k, v) ∷ delete m k

  -- for k, v := range m { if !keep(v) { delete(m, k) } }
  unfoldable pub retain : (V → Bool) → Map V → Map V
  retain keep [] = []
  retain keep ((j, v) ∷ m) = let rest = retain keep m in if keep v then (j, v) ∷ rest else rest

  pub lookup-delete :
      (m : Map V) (k j : String) → lookup (delete m k) j ≡ (if k == j then none else lookup m j)
  unfolding lookup delete
  lookup-delete [] k j = ground arith
  lookup-delete ((i, v) ∷ m) k j =
      ground (arith, lookup-delete m k j, eq_iff i k, eq_iff i j, eq_iff k j)

  pub lookup-insert :
      (m : Map V) (k j : String) (v : V)
      → lookup (insert m k v) j ≡ (if k == j then some v else lookup m j)
  unfolding lookup insert
  lookup-insert m k j v = ground (arith, lookup-delete m k j)

  abbrev pub Distinct : Map V → Type ℓ
  Distinct [] = Unit
  Distinct ((k, v) ∷ m) = (lookup m k ≡ none) × Distinct m

  -- What a lookup finds after a write or a removal was written, or stood there before.
  pub insert_cases :
      (m : Map V) (k j : String) (v w : V)
      → lookup (insert m k v) j ≡ some w
      → (v ≡ w) ⊎ (lookup m j ≡ some w)
  insert_cases m k j v w e = ground (arith, lookup-insert m k j v)

  pub delete_cases :
      (m : Map V) (k j : String) (w : V) → lookup (delete m k) j ≡ some w → lookup m j ≡ some w
  delete_cases m k j w e = ground (arith, lookup-delete m k j)

  pub lookup-insert_self : (m : Map V) (k : String) (v : V) → lookup (insert m k v) k ≡ some v
  unfolding lookup insert
  lookup-insert_self m k v = ground (arith, eq_iff k k)

  pub delete-Distinct : (m : Map V) (k : String) → Distinct m → Distinct (delete m k)
  unfolding delete
  delete-Distinct [] k d = d
  delete-Distinct ((j, v) ∷ m) k d =
      ground (arith, delete-Distinct m k, lookup-delete m k j, eq_iff j k)

  pub insert-Distinct : (m : Map V) (k : String) (v : V) → Distinct m → Distinct (insert m k v)
  unfolding insert
  insert-Distinct m k v d = ground (arith, delete-Distinct m k, lookup-delete m k k, eq_iff k k)

  -- What a lookup finds after the range loop, when no key stands twice.
  abbrev pub kept : (V → Bool) → Option V → Option V
  kept keep none = none
  kept keep (some v) = if keep v then some v else none

  lookup-retain-none :
      (keep : V → Bool) (m : Map V) (k : String)
      → lookup m k ≡ none
      → lookup (retain keep m) k ≡ none
  unfolding lookup retain
  lookup-retain-none keep [] k e = refl
  lookup-retain-none keep ((j, v) ∷ m) k e = ground (arith, lookup-retain-none keep m k)

  pub retain-Distinct : (keep : V → Bool) (m : Map V) → Distinct m → Distinct (retain keep m)
  unfolding retain
  retain-Distinct keep [] d = d
  retain-Distinct keep ((j, v) ∷ m) d =
      ground (arith, retain-Distinct keep m, lookup-retain-none keep m j)

  pub lookup-retain :
      (keep : V → Bool) (m : Map V) (k : String)
      → Distinct m
      → lookup (retain keep m) k ≡ kept keep (lookup m k)
  unfolding lookup retain
  lookup-retain keep [] k d = refl
  lookup-retain keep ((j, v) ∷ m) k d =
      ground (arith, lookup-retain keep m k, lookup-retain-none keep m k, eq_iff j k)

  pub retain_cases :
      (keep : V → Bool) (m : Map V) (k : String) (w : V)
      → Distinct m
      → lookup (retain keep m) k ≡ some w
      → (lookup m k ≡ some w) × (keep w ≡ true)
  retain_cases keep m k w d e = ground (arith, lookup-retain keep m k d)

  pub ruleset map_laws = (lookup-delete, lookup-insert)
