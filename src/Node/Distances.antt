-- ===== src/Node/Distances.antt =====
-- How far a stored graph reaches: `distances` of crates/mabel-node/src/graph/crawl.rs. A graph maps a
-- node to the subjects of its edges.
pub mod Ends
use mabel.Base.{
  ℕ, zero, suc, Bool, not, ◌||◌, Option, none, some, List, [], ◌∷◌, ◌++◌, is_some, if◌then◌else◌,
}
use mabel.Base.Bytes.{length}
use mabel.Base.Map.{Map, get, insert}

abbrev pub Graph : Type 0
Graph = Map (List ℕ)

abbrev pub edges_of : Option (List ℕ) → List ℕ
edges_of none = []
edges_of (some subjects) = subjects

-- What was seen, with its distance, and the next frontier.
abbrev pub Found : Type 0
Found = Map ℕ × List ℕ

unfoldable pub see : Graph → (depth subject : ℕ) → Found → Found
unfolding get insert
see nodes depth subject (seen, next) =
    if not (is_some (get subject nodes)) || is_some (get subject seen)
    then (seen, next)
    else (insert subject depth seen, next ++ subject ∷ [])

unfoldable pub see_all : Graph → (depth : ℕ) → List ℕ → Found → Found
unfolding see
see_all nodes depth [] found = found
see_all nodes depth (subject ∷ subjects) found =
    see_all nodes depth subjects (see nodes depth subject found)

-- The nodes of one frontier, in order.
unfoldable pub expand : Graph → (depth : ℕ) → List ℕ → Found → Found
unfolding get see_all
expand nodes depth [] found = found
expand nodes depth (node ∷ frontier) found =
    expand nodes depth frontier (see_all nodes depth (edges_of (get node nodes)) found)

-- `while !frontier.is_empty()`, on fuel, where the frontier stands at `depth`. None where the fuel
-- is spent.
unfoldable pub rounds : (fuel depth : ℕ) → Graph → List ℕ → Map ℕ → Option (Map ℕ)
unfolding expand
rounds fuel depth nodes [] seen = some seen
rounds zero depth nodes (node ∷ frontier) seen = none
rounds (suc fuel) depth nodes (node ∷ frontier) seen =
    let found = expand nodes (suc depth) (node ∷ frontier) (seen, []) in
    rounds fuel (suc depth) nodes found.1 found.0

-- A round that leaves a frontier has seen a node that no round before it saw, so one round for each
-- node, and one more, are enough.
unfoldable pub distances : Graph → (from : ℕ) → Option (Map ℕ)
unfolding rounds insert
distances nodes from = rounds (suc (length nodes)) 0 nodes (from ∷ []) (insert from 0 [])
