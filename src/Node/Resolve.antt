-- ===== src/Node/Resolve.antt =====
-- The resolution of a witness, once for an operation: `Resolution` of
-- crates/mabel-node/src/graph/resolve.rs, less its dial budget and its deadline. The lock is held
-- while a resolution is entered and again when it is left, and other fetches run between the two.
pub mod Once
use mabel.Base.{
  ℕ, ◌+◌, Bool, true, false, not, ◌&&◌, ◌||◌, Option, none, some, List, [], ◌∷◌, ◌++◌, ◌==◌,
  is_some, if◌then◌else◌,
}
use mabel.Base.Map.{Map, get, insert, remove}

-- What `core.load` gives of a local copy: whether it is empty or has a violation, and of its state the
-- ledger, the advertised endpoints and the retired ones.
pub record LocalCopy : Type 0 where
  pub is_empty : Bool
  pub violates : Bool
  pub ledger : Option ℕ
  pub endpoints : List ℕ
  pub witness_endpoints : List ℕ

-- What this home holds on a witness. `peers` and `config` are none where the file cannot be read,
-- `local_copy` where `load` fails.
pub record Sources : Type 0 where
  pub caller_hints : List ℕ
  pub peers : Option (List ℕ)
  pub local_copy : Option LocalCopy
  pub config : Option (List ℕ)

unfoldable pub has : ℕ → List ℕ → Bool
has x [] = false
has x (y ∷ ys) = y == x || has x ys

-- The closure `push`.
unfoldable pub push : ℕ → List ℕ → List ℕ
unfolding has
push endpoint endpoints = if has endpoint endpoints then endpoints else endpoints ++ endpoint ∷ []

unfoldable pub push_all : List ℕ → List ℕ → List ℕ
unfolding push
push_all [] endpoints = endpoints
push_all (endpoint ∷ more) endpoints = push_all more (push endpoint endpoints)

abbrev pub is_ledger : ℕ → Option ℕ → Bool
is_ledger witness none = false
is_ledger witness (some ledger) = ledger == witness

unfoldable pub push_local : (witness : ℕ) → Option LocalCopy → List ℕ → List ℕ
unfolding push_all
push_local witness none endpoints = endpoints
push_local witness (some copy) endpoints =
    if not copy.is_empty && not copy.violates && is_ledger witness copy.ledger
    then push_all copy.witness_endpoints (push_all copy.endpoints endpoints)
    else endpoints

-- `resolve_witness` once both files are read.
abbrev pub gather : (witness : ℕ) → Sources → Option (List ℕ) → Option (List ℕ) → Option (List ℕ)
gather witness s none config = none
gather witness s (some peers) none = none
gather witness s (some peers) (some config) = some (
    push_all config (push_local witness s.local_copy (push_all peers (push_all s.caller_hints []))))

-- None stands for an error of a file.
unfoldable pub resolve_witness : (witness : ℕ) → Sources → Option (List ℕ)
unfolding push_all push_local
resolve_witness witness s = gather witness s s.peers s.config

pub record ResolutionState : Type 0 where
  pub resolved : Map (List ℕ)
  pub resolving : Map (Unit {0})
  pub resolutions : ℕ

abbrev pub unresolved : ResolutionState
unresolved = record { resolved = []; resolving = []; resolutions = 0 }

-- The first half of `witness_endpoints`: an answer at once, or none and the resolution is to run.
unfoldable pub enter : (witness : ℕ) → ResolutionState → Option (List ℕ) × ResolutionState
unfolding get insert
enter witness s = elim (get witness s.resolved) [
  | some endpoints ↦ (some endpoints, s)
  | none ↦ if is_some (get witness s.resolving) then (some [], s) else (
    none,
    record s { resolving = insert witness tt s.resolving; resolutions = s.resolutions + 1 },
  )
]

abbrev pub keep_resolved : (witness : ℕ) → Option (List ℕ) → Map (List ℕ) → Map (List ℕ)
keep_resolved witness none resolved = resolved
keep_resolved witness (some endpoints) resolved = insert witness endpoints resolved

-- The second half, on what the resolution gave.
unfoldable pub leave : (witness : ℕ) → Option (List ℕ) → ResolutionState → ResolutionState
unfolding insert remove
leave witness result s = record s {
  resolving = remove witness s.resolving;
  resolved = keep_resolved witness result s.resolved;
}
