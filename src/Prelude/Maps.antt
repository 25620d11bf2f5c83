-- ===== src/Prelude/Maps.antt =====
-- Go maps with text keys, for the stores and indexes: an association list of which the first entry
-- for a key counts.
use Prim.Native.String.{String}
use Prim.Native.Nat.{ℕ, suc}
use mathlib.Core.Path.{◌≡◌, refl}
use mathlib.Core.Bool.{Bool, true, false}
use mathlib.Core.Option.{Option, none, some}
use mathlib.Core.List.{List, [], ◌∷◌}
use native.Mathlib.Omega.{arith}
use text.Mathlib.Text.{◌==◌}
use text.Mathlib.TextEquality.{eq_iff}
use causalontology.Prelude.Tests.{if◌then◌else◌}

abbrev pub Map {ℓ} : Type ℓ → Type ℓ
Map V = List (String × V)

module _ {ℓ} {V : Type ℓ} where
  -- `v, present := m[key]`
  unfoldable pub find : Map V → String → Option V
  find [] key = none
  find ((k, v) ∷ m) key = let rest = find m key in if k == key then some v else rest

  unfoldable pub is_some : Option V → Bool
  is_some none = false
  is_some (some v) = true

  -- `m[key] = v`
  unfoldable pub insert : Map V → String → V → Map V
  insert [] key v = (key, v) ∷ []
  insert ((k, w) ∷ m) key v =
      let rest = insert m key v in if k == key then (key, v) ∷ m else (k, w) ∷ rest

  -- `len(m)`, where every key stands once
  unfoldable pub size : Map V → ℕ
  size [] = 0
  size (entry ∷ m) = suc (size m)

  pub find-insert :
      (m : Map V) (k : String) (v : V) (j : String)
      → find (insert m k v) j ≡ (if k == j then some v else find m j)
  unfolding find insert
  find-insert [] k v j = refl
  find-insert ((i, w) ∷ m) k v j =
      ground (arith, find-insert m k v j, eq_iff i k, eq_iff i j, eq_iff k j)

  pub size-insert_new :
      (m : Map V) (k : String) (v : V) → find m k ≡ none → size (insert m k v) ≡ suc (size m)
  unfolding find insert size
  size-insert_new [] k v h = refl
  size-insert_new ((i, w) ∷ m) k v h = ground (arith, size-insert_new m k v)
