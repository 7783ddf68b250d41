-- ===== src/Base/Map.antt =====
-- A `BTreeMap` keyed by numbers: an association list in ascending order of the keys, which is the
-- order in which the map iterates.
use Prim.Native.Nat.{ℕ, ◌<◌}
use mathlib.Core.Bool.{Bool}
use mathlib.Core.Option.{Option, none, some}
use mathlib.Core.List.{List, [], ◌∷◌}
use mabel.Base.Tests.{◌==◌, ltb, if◌then◌else◌}

abbrev pub Map {ℓ} : Type ℓ → Type ℓ
Map V = List (ℕ × V)

module _ {ℓ} {V : Type ℓ} where
  unfoldable pub get : ℕ → Map V → Option V
  get k [] = none
  get k ((j, v) ∷ m) = if j == k then some v else get k m

  unfoldable pub insert : ℕ → V → Map V → Map V
  insert k v [] = (k, v) ∷ []
  insert k v ((j, w) ∷ m) =
      let rest = insert k v m in
      if ltb k j then (k, v) ∷ (j, w) ∷ m else if j == k then (k, v) ∷ m else (j, w) ∷ rest

  unfoldable pub remove : ℕ → Map V → Map V
  remove k [] = []
  remove k ((j, w) ∷ m) = let rest = remove k m in if j == k then rest else (j, w) ∷ rest

  -- `iter().find(|(k, v)| test(k, v))`
  unfoldable pub find : (ℕ → V → Bool) → Map V → Option (ℕ × V)
  find test [] = none
  find test ((j, w) ∷ m) = let rest = find test m in if test j w then some (j, w) else rest

  -- Every key of the map is above `k`.
  abbrev pub IsAbove : ℕ → Map V → Type 0
  IsAbove k [] = Unit
  IsAbove k ((j, _) ∷ m) = (k < j) × IsAbove k m

  -- The keys ascend strictly, so none is listed twice.
  abbrev pub IsOrdered : Map V → Type 0
  IsOrdered [] = Unit
  IsOrdered ((j, _) ∷ m) = IsAbove j m × IsOrdered m
