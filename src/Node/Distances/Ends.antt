-- ===== src/Node/Distances/Ends.antt =====
-- The search of `distances`, crates/mabel-node/src/graph/crawl.rs, ends, and what it sees it reaches.
use mabel.Base.{
  ℕ, zero, suc, ◌+◌, ◌≤◌, ◌<◌, true, false, not, ◌||◌, some, List, [], ◌∷◌, ◌++◌, ◌≡◌, ◌⊎◌, refl,
  inl, inr, arith, ◌==◌, is_some, Bool-cases, if◌then◌else◌, if_both,
}
use mathlib.Core.Path.{subst, subst₂}
use mabel.Base.Bytes.{length, length-append}
use mabel.Base.Map.{Map, get, insert}
use mabel.Base.MapLaws.{get-insert}
use mabel.Node.Distances.{Graph, edges_of, Found, see, see_all, expand, rounds, distances}

-- The nodes of a part of the graph that were not seen yet.
unfoldable unseen : Graph → Map ℕ → ℕ
unfolding get
unseen [] seen = 0
unseen ((k, _) ∷ nodes) seen = (if is_some (get k seen) then 0 else 1) + unseen nodes seen

unseen-length : (nodes : Graph) (seen : Map ℕ) → unseen nodes seen ≤ length nodes
unfolding unseen
unseen-length [] seen = omega arith
unseen-length ((k, _) ∷ nodes) seen = ground (arith, unseen-length nodes seen)

unseen-insert :
    (nodes : Graph) (seen : Map ℕ) (s d : ℕ) → unseen nodes (insert s d seen) ≤ unseen nodes seen
unfolding unseen
unseen-insert [] seen s d = omega arith
unseen-insert ((k, _) ∷ nodes) seen s d =
    let look = get-insert s k d seen in ground (arith, unseen-insert nodes seen s d, look)

unseen-new :
    (nodes : Graph) (seen : Map ℕ) (s d : ℕ)
    → is_some (get s nodes) ≡ true
    → is_some (get s seen) ≡ false
    → unseen nodes (insert s d seen) < unseen nodes seen
unfolding unseen get
unseen-new [] seen s d there new = absurd cc
unseen-new ((k, subjects) ∷ nodes) seen s d there new =
    let look = get-insert s k d seen in
    let least = unseen-insert nodes seen s d in
    elim (Bool-cases (k == s)) [
      | inl same ↦
          let is : s ≡ k = ground (arith, same) in
          let new' : is_some (get k seen) ≡ false =
            subst (λ n. is_some (get n seen) ≡ false) is new in
          let now : is_some (get k (insert s d seen)) ≡ true = ground (arith, look, is) in
          ground (arith, least, new', now)
      | inr apart ↦
          let less = unseen-new nodes seen s d (ground (arith, apart, there)) new in
          let apart' : (s == k) ≡ false = ground (arith, apart) in
          let keeps : get k (insert s d seen) ≡ get k seen = ground (arith, look, apart') in
          ground (arith, less, keeps)
    ]

-- Every node that joins the frontier is one fewer unseen.
abbrev measure : Graph → Found → ℕ
measure nodes found = unseen nodes found.0 + length found.1

see-measure :
    (nodes : Graph) (depth s : ℕ) (seen : Map ℕ) (next : List ℕ)
    → measure nodes (see nodes depth s (seen, next)) ≤ unseen nodes seen + length next
unfolding see
see-measure nodes depth s seen next =
    let longer = length-append next (s ∷ []) in
    let less = unseen-new nodes seen s depth in
    elim (Bool-cases (is_some (get s nodes))) [
      | inr gone ↦ ground (arith, gone)
      | inl there ↦ elim (Bool-cases (is_some (get s seen))) [
        | inl old ↦ ground (arith, there, old)
        | inr new ↦ let fewer = less there new in ground (arith, there, new, fewer, longer)
      ]
    ]

see_all-measure :
    (nodes : Graph) (depth : ℕ) (subjects : List ℕ) (found : Found)
    → measure nodes (see_all nodes depth subjects found) ≤ measure nodes found
unfolding see_all
see_all-measure nodes depth [] found = omega arith
see_all-measure nodes depth (s ∷ subjects) (seen, next) =
    let one = see-measure nodes depth s seen next in
    let rest = see_all-measure nodes depth subjects (see nodes depth s (seen, next)) in
    omega (arith, one, rest)

expand-measure :
    (nodes : Graph) (depth : ℕ) (frontier : List ℕ) (found : Found)
    → measure nodes (expand nodes depth frontier found) ≤ measure nodes found
unfolding expand
expand-measure nodes depth [] found = omega arith
expand-measure nodes depth (node ∷ frontier) found =
    let found' = see_all nodes depth (edges_of (get node nodes)) found in
    let one = see_all-measure nodes depth (edges_of (get node nodes)) found in
    let rest = expand-measure nodes depth frontier found' in omega (arith, one, rest)

abbrev pub IsIn : ℕ → List ℕ → Type 0
IsIn x [] = ⊥
IsIn x (y ∷ ys) = (y ≡ x) ⊎ IsIn x ys

-- There is a path of so many edges of the graph.
abbrev pub IsPath : Graph → (from steps to : ℕ) → Type 0
IsPath nodes from zero to = from ≡ to
IsPath nodes from (suc steps) to =
    (via : ℕ) × IsPath nodes from steps via × IsIn to (edges_of (get via nodes))

abbrev AllAt : Graph → (from steps : ℕ) → List ℕ → Type 0
AllAt nodes from steps [] = Unit
AllAt nodes from steps (x ∷ xs) = IsPath nodes from steps x × AllAt nodes from steps xs

-- What was seen was reached in as many steps, and the frontier stands at `depth`.
abbrev IsReached : Graph → (from depth : ℕ) → Found → Type 0
IsReached nodes from depth found =
    ((x d : ℕ) → get x found.0 ≡ some d → IsPath nodes from d x) × AllAt nodes from depth found.1

AllAt-append :
    (nodes : Graph) (from steps x : ℕ) (xs : List ℕ)
    → AllAt nodes from steps xs
    → IsPath nodes from steps x
    → AllAt nodes from steps (xs ++ x ∷ [])
AllAt-append nodes from steps x [] h p = (p, tt)
AllAt-append nodes from steps x (y ∷ xs) h p = (h.0, AllAt-append nodes from steps x xs h.1 p)

see-IsReached :
    (nodes : Graph) (from depth s : ℕ) (seen : Map ℕ) (next : List ℕ)
    → IsPath nodes from depth s
    → IsReached nodes from depth (seen, next)
    → IsReached nodes from depth (see nodes depth s (seen, next))
unfolding see
see-IsReached nodes from depth s seen next p h =
    if_both (IsReached nodes from depth) (not (is_some (get s nodes)) || is_some (get s seen)) h (
      λ x d e.
          let look = get-insert s x depth seen in
          elim (Bool-cases (s == x)) [
            | inl same ↦
                let is : s ≡ x = ground (arith, same) in
                let level : depth ≡ d = ground (arith, look, same, e) in
                subst₂ (λ n y. IsPath nodes from n y) level is p
            | inr apart ↦ h.0 x d (ground (arith, look, apart, e))
          ],
      AllAt-append nodes from depth s next h.1 p,
    )

see_all-IsReached :
    (nodes : Graph) (from depth : ℕ) (subjects : List ℕ) (found : Found)
    → AllAt nodes from depth subjects
    → IsReached nodes from depth found
    → IsReached nodes from depth (see_all nodes depth subjects found)
unfolding see_all
see_all-IsReached nodes from depth [] found p h = h
see_all-IsReached nodes from depth (s ∷ subjects) (seen, next) p h =
    see_all-IsReached nodes from depth subjects (see nodes depth s (seen, next)) p.1
      (see-IsReached nodes from depth s seen next p.0 h)

-- The subjects of a node are one step further.
edges-AllAt :
    (nodes : Graph) (from depth node : ℕ) (subjects : List ℕ)
    → IsPath nodes from depth node
    → ((x : ℕ) → IsIn x subjects → IsIn x (edges_of (get node nodes)))
    → AllAt nodes from (suc depth) subjects
edges-AllAt nodes from depth node [] p within = tt
edges-AllAt nodes from depth node (s ∷ subjects) p within = (
  (node, p, within s (inl refl)),
  edges-AllAt nodes from depth node subjects p (λ x h. within x (inr h)),
)

expand-IsReached :
    (nodes : Graph) (from depth : ℕ) (frontier : List ℕ) (found : Found)
    → AllAt nodes from depth frontier
    → IsReached nodes from (suc depth) found
    → IsReached nodes from (suc depth) (expand nodes (suc depth) frontier found)
unfolding expand
expand-IsReached nodes from depth [] found p h = h
expand-IsReached nodes from depth (node ∷ frontier) found p h =
    let subjects = edges_of (get node nodes) in
    let further = edges-AllAt nodes from depth node subjects p.0 (λ x h. h) in
    expand-IsReached nodes from depth frontier (see_all nodes (suc depth) subjects found) p.1
      (see_all-IsReached nodes from (suc depth) subjects found further h)

abbrev AllReached : Graph → ℕ → Map ℕ → Type 0
AllReached nodes from seen = (x d : ℕ) → get x seen ≡ some d → IsPath nodes from d x

nil_or_less : (xs : List ℕ) (n fuel : ℕ) → n + length xs < suc fuel → (xs ≡ []) ⊎ (n < fuel)
nil_or_less [] n fuel h = inl refl
nil_or_less (x ∷ xs) n fuel h = inr (omega (arith, h))

start_reached :
    (nodes : Graph) (from x d : ℕ) → get x (insert from 0 []) ≡ some d → IsPath nodes from d x
unfolding get insert
start_reached nodes from x d e = elim (Bool-cases (from == x)) [
  | inl same ↦
      let zero_steps : 0 ≡ d = ground (arith, same, e) in
      let is : from ≡ x = ground (arith, same) in subst (λ n. IsPath nodes from n x) zero_steps is
  | inr apart ↦ absurd (ground (arith, apart, e))
]

rounds-Ends :
    (fuel depth : ℕ) (nodes : Graph) (from : ℕ) (frontier : List ℕ) (seen : Map ℕ)
    → (frontier ≡ []) ⊎ (unseen nodes seen < fuel)
    → IsReached nodes from depth (seen, frontier)
    → (out : Map ℕ) × (rounds fuel depth nodes frontier seen ≡ some out) × AllReached nodes from out
unfolding rounds
rounds-Ends fuel depth nodes from [] seen enough h = (seen, refl, h.0)
rounds-Ends zero depth nodes from (node ∷ frontier) seen (inl e) h = absurd cc
rounds-Ends zero depth nodes from (node ∷ frontier) seen (inr lt) h = absurd (omega (arith, lt))
rounds-Ends (suc fuel) depth nodes from (node ∷ frontier) seen (inl e) h = absurd cc
rounds-Ends (suc fuel) depth nodes from (node ∷ frontier) seen (inr lt) h =
    let found = expand nodes (suc depth) (node ∷ frontier) (seen, []) in
    let less = expand-measure nodes (suc depth) (node ∷ frontier) (seen, []) in
    let reached = expand-IsReached nodes from depth (node ∷ frontier) (seen, []) h.1 (h.0, tt) in
    rounds-Ends fuel (suc depth) nodes from found.1 found.0
      (nil_or_less found.1 (unseen nodes found.0) fuel (omega (arith, less, lt))) reached

-- The search ends on every graph, cyclic ones included, and each distance that it gives is the length
-- of a path from its start to that node.
pub distances-Ends :
    (nodes : Graph) (from : ℕ)
    → (out : Map ℕ) × (distances nodes from ≡ some out)
      × ((x d : ℕ) → get x out ≡ some d → IsPath nodes from d x)
unfolding distances insert get
distances-Ends nodes from =
    let seen = insert from 0 [] in
    rounds-Ends (suc (length nodes)) 0 nodes from (from ∷ []) seen
      (inr (omega (arith, unseen-length nodes seen)))
      (λ x d e. start_reached nodes from x d e, (refl, tt))
