-- ===== src/Base/MapLaws.antt =====
-- The laws of the ordered maps.
use Prim.Native.Nat.{ℕ, ◌<◌}
use mathlib.Core.Path.{◌≡◌, refl}
use mathlib.Core.Bool.{Bool, true, false}
use mathlib.Core.Option.{none, some}
use mathlib.Core.List.{[], ◌∷◌}
use native.Mathlib.Omega.{arith}
use mabel.Base.Tests.{◌==◌, if◌then◌else◌, Bool-cases}
use mathlib.Core.Logic.{inl, inr}
use mabel.Base.Map.{Map, get, insert, remove, find, IsAbove, IsOrdered}

module _ {ℓ} {V : Type ℓ} where
  pub get-insert :
      (k j : ℕ) (v : V) (m : Map V) → get j (insert k v m) ≡ (if k == j then some v else get j m)
  unfolding get insert
  get-insert k j v [] = refl
  get-insert k j v ((i, w) ∷ m) = ground (arith, get-insert k j v m)

  pub get-remove : (k j : ℕ) (m : Map V) → get j (remove k m) ≡ (if k == j then none else get j m)
  unfolding get remove
  get-remove k j [] = ground arith
  get-remove k j ((i, w) ∷ m) = ground (arith, get-remove k j m)

  IsAbove-lt : (a b : ℕ) (m : Map V) → a < b → IsAbove b m → IsAbove a m
  IsAbove-lt a b [] h t = tt
  IsAbove-lt a b ((j, w) ∷ m) h t = (omega arith, IsAbove-lt a b m h t.1)

  IsAbove-insert : (a k : ℕ) (v : V) (m : Map V) → a < k → IsAbove a m → IsAbove a (insert k v m)
  unfolding insert
  IsAbove-insert a k v [] h t = (h, tt)
  IsAbove-insert a k v ((j, w) ∷ m) h t = ground (arith, IsAbove-insert a k v m)

  pub insert-IsOrdered : (k : ℕ) (v : V) (m : Map V) → IsOrdered m → IsOrdered (insert k v m)
  unfolding insert
  insert-IsOrdered k v [] h = (tt, tt)
  insert-IsOrdered k v ((j, w) ∷ m) h =
      ground (arith, insert-IsOrdered k v m, IsAbove-insert j k v m, IsAbove-lt k j m)

  IsAbove-remove : (a k : ℕ) (m : Map V) → IsAbove a m → IsAbove a (remove k m)
  unfolding remove
  IsAbove-remove a k [] t = tt
  IsAbove-remove a k ((j, w) ∷ m) t = ground (arith, IsAbove-remove a k m)

  pub remove-IsOrdered : (k : ℕ) (m : Map V) → IsOrdered m → IsOrdered (remove k m)
  unfolding remove
  remove-IsOrdered k [] h = tt
  remove-IsOrdered k ((j, w) ∷ m) h = ground (arith, remove-IsOrdered k m, IsAbove-remove j k m)

  pub IsAbove-get : (a k : ℕ) (v : V) (m : Map V) → IsAbove a m → get k m ≡ some v → a < k
  unfolding get
  IsAbove-get a k v [] t e = cc
  IsAbove-get a k v ((j, w) ∷ m) t e = ground (arith, IsAbove-get a k v m)

  -- What `find` finds is an entry of the map, and passes the test.
  pub find-some :
      (test : ℕ → V → Bool) (k : ℕ) (v : V) (m : Map V)
      → IsOrdered m
      → find test m ≡ some (k, v)
      → (get k m ≡ some v) × (test k v ≡ true)
  unfolding find get
  find-some test k v [] h e = cc
  find-some test k v ((j, w) ∷ m) h e = elim (Bool-cases (test j w)) [
    | inl hit ↦ ground (arith, hit)
    | inr miss ↦
        let e' : find test m ≡ some (k, v) = ground (arith, miss) in
        let ih = find-some test k v m h.1 e' in ground (arith, ih, IsAbove-get j k v m h.0)
  ]

  -- Where `find` finds nothing, no entry passes the test.
  pub find-none :
      (test : ℕ → V → Bool) (k : ℕ) (v : V) (m : Map V)
      → find test m ≡ none
      → get k m ≡ some v
      → test k v ≡ false
  unfolding find get
  find-none test k v [] h e = cc
  find-none test k v ((j, w) ∷ m) h e = ground (arith, find-none test k v m)
