-- ===== src/Tests/Resolved.antt =====
-- The resolution of crates/mabel-node/src/graph/resolve.rs on one witness and two fetches, and the
-- distances of crates/mabel-node/src/graph/crawl.rs in a graph with a cycle.
use mabel.Base.{ℕ, false, none, some, List, [], ◌∷◌, ◌++◌, ◌≡◌, refl}
use mabel.Base.Map.{Map, get, insert, remove}
use mabel.Node.Resolve.{Sources, has, push, push_all, push_local, resolve_witness, enter, leave}
use mabel.Node.Resolve.Once.{
  AreDistinct, Lock, IsSchedule, locked, state_after, enter-once, resolve_witness-AreDistinct,
}
use mabel.Node.Distances.{Graph, distances}
use mabel.Node.Distances.Ends.{IsPath, distances-Ends}

abbrev sources : Sources
sources = record {
  caller_hints = 5 ∷ 6 ∷ [];
  peers = some (6 ∷ 7 ∷ []);
  local_copy = some (record {
    is_empty = false;
    violates = false;
    ledger = some 1;
    endpoints = 7 ∷ 8 ∷ [];
    witness_endpoints = [];
  });
  config = some (5 ∷ []);
}

four_found : resolve_witness 1 sources ≡ some (5 ∷ 6 ∷ 7 ∷ 8 ∷ [])
unfolding resolve_witness push_local push_all push has
four_found = refl

resolve_witness-AreDistinct_example : AreDistinct (5 ∷ 6 ∷ 7 ∷ 8 ∷ [])
resolve_witness-AreDistinct_example =
    resolve_witness-AreDistinct 1 sources (5 ∷ 6 ∷ 7 ∷ 8 ∷ []) four_found

-- Two fetches ask for witness 1 together, and one for witness 2 behind them.
abbrev earlier : List Lock
earlier = Lock.left 1 (some (5 ∷ [])) ∷ Lock.entered 1 ∷ Lock.entered 1 ∷ []

abbrev later : List Lock
later = Lock.left 2 none ∷ Lock.entered 2 ∷ []

schedule : IsSchedule (later ++ earlier)
unfolding state_after locked enter leave get insert remove
schedule = (refl, (tt, (refl, (tt, (tt, tt)))))

resolved : get 1 (state_after earlier).resolved ≡ some (5 ∷ [])
unfolding state_after locked enter leave get insert remove
resolved = refl

enter-once_example :
    enter 1 (state_after (later ++ earlier)) ≡ (some (5 ∷ []), state_after (later ++ earlier))
enter-once_example = enter-once later earlier 1 (5 ∷ []) schedule resolved

-- A cycle of two nodes, and an edge to a node that is not stored.
abbrev cyclic : Graph
cyclic = (1, 2 ∷ []) ∷ (2, 1 ∷ 9 ∷ []) ∷ []

distances-Ends_example :
    (out : Map ℕ) × (distances cyclic 1 ≡ some out)
    × ((x d : ℕ) → get x out ≡ some d → IsPath cyclic 1 d x)
distances-Ends_example = distances-Ends cyclic 1
