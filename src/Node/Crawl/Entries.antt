-- ===== src/Node/Crawl/Entries.antt =====
-- Predicates on the members of the lists, sets and maps of crates/mabel-node/src/graph/crawl.rs.
use mabel.Base.{
  ℕ, zero, suc, some, List, [], ◌∷◌, ◌≡◌, ◌⊎◌, refl, inl, inr, arith, ◌==◌, ltb, Bool-cases,
  if_both,
}
use mathlib.Core.Path.{subst₂}
use mabel.Base.Bytes.{take}
use mabel.Base.Map.{Map, get, insert}
use mabel.Node.Crawl.{members, set_of}

abbrev pub IsIn : ℕ → List ℕ → Type 0
IsIn x [] = ⊥
IsIn x (y ∷ ys) = (y ≡ x) ⊎ IsIn x ys

-- Where `P` holds of every entry of a map.
abbrev pub All : {V : Type 0} → (ℕ → V → Type 0) → Map V → Type 0
All P [] = Unit
All P ((k, v) ∷ m) = P k v × All P m

pub All-insert :
    {V : Type 0} (P : ℕ → V → Type 0) (k : ℕ) (v : V) (m : Map V)
    → P k v
    → All P m
    → All P (insert k v m)
unfolding insert
All-insert P k v [] p h = (p, tt)
All-insert P k v ((j, w) ∷ m) p h =
    if_both (All P) (ltb k j) (p, h)
      (if_both (All P) (j == k) (p, h.1) (h.0, All-insert P k v m p h.1))

pub All-get :
    {V : Type 0} (P : ℕ → V → Type 0) (k : ℕ) (v : V) (m : Map V)
    → All P m
    → get k m ≡ some v
    → P k v
unfolding get
All-get P k v [] h e = absurd cc
All-get P k v ((j, w) ∷ m) h e = elim (Bool-cases (j == k)) [
  | inl same ↦
      let key : j ≡ k = ground (arith, same) in
      let here : some w ≡ some v = ground (arith, same, e) in
      let value : w ≡ v = cc in subst₂ P key value h.0
  | inr apart ↦ All-get P k v m h.1 (ground (arith, apart, e))
]

-- Where `P` holds of every member of a list.
abbrev pub Each : (ℕ → Type 0) → List ℕ → Type 0
Each P [] = Unit
Each P (x ∷ xs) = P x × Each P xs

pub Each-take : (P : ℕ → Type 0) (n : ℕ) (xs : List ℕ) → Each P xs → Each P (take n xs)
unfolding take
Each-take P zero xs h = tt
Each-take P (suc n) [] h = tt
Each-take P (suc n) (x ∷ xs) h = (h.0, Each-take P n xs h.1)

pub Each-members : (P : ℕ → Type 0) (m : Map (Unit {0})) → All (λ k _. P k) m → Each P (members m)
unfolding members
Each-members P [] h = tt
Each-members P ((k, _) ∷ m) h = (h.0, Each-members P m h.1)

pub All-set_of : (P : ℕ → Type 0) (xs : List ℕ) → Each P xs → All (λ k _. P k) (set_of xs)
unfolding set_of
All-set_of P [] h = tt
All-set_of P (x ∷ xs) h = All-insert (λ k _. P k) x tt (set_of xs) h.0 (All-set_of P xs h.1)

pub Each-IsIn :
    (roots xs : List ℕ) → ((x : ℕ) → IsIn x xs → IsIn x roots) → Each (λ x. IsIn x roots) xs
Each-IsIn roots [] h = tt
Each-IsIn roots (x ∷ xs) h = (h x (inl refl), Each-IsIn roots xs (λ y i. h y (inr i)))
