-- ===== src/Node/Budget.antt =====
-- The dial budget of one operation: `DialBudget` of crates/mabel-node/src/graph/resolve.rs and
-- `SourceClass` of graph/model.rs. The set of endpoints and the map of what a class has spent are
-- ordered maps, the second keyed by the position of the class in its enum.
pub mod Bounds
pub mod Mentions
use mabel.Base.{
  ℕ, suc, ◌+◌, ◌-◌, ◌^◌, Bool, true, false, Option, none, some, [], ◌==◌, leb, is_some,
  if◌then◌else◌,
}
use mabel.Base.Bytes.{length}
use mabel.Base.Map.{Map, get, insert}

pub data SourceClass : Type 0 where
  local_read caller_hint peer_hint node_witness chain_named dns : SourceClass

-- `usize::MAX`, on 64 bits.
abbrev pub usize_max : ℕ
usize_max = 2 ^ 64 - 1

abbrev pub max_dials : ℕ
max_dials = 16

unfoldable pub cap : SourceClass → ℕ
cap SourceClass.local_read = usize_max
cap SourceClass.caller_hint = 4
cap SourceClass.peer_hint = 4
cap SourceClass.node_witness = 8
cap SourceClass.chain_named = 8
cap SourceClass.dns = 4

unfoldable pub reserved : SourceClass → ℕ
reserved SourceClass.node_witness = 4
reserved _ = 0

-- The place of a class among the variants.
unfoldable pub rank : SourceClass → ℕ
rank SourceClass.local_read = 0
rank SourceClass.caller_hint = 1
rank SourceClass.peer_hint = 2
rank SourceClass.node_witness = 3
rank SourceClass.chain_named = 4
rank SourceClass.dns = 5

pub record DialBudget : Type 0 where
  pub dialled : Map (Unit {0})
  pub spent : Map ℕ

abbrev pub fresh : DialBudget
fresh = record { dialled = []; spent = [] }

abbrev pub or_zero : Option ℕ → ℕ
or_zero none = 0
or_zero (some n) = n

unfoldable pub spent_by : SourceClass → DialBudget → ℕ
unfolding rank get
spent_by class b = or_zero (get (rank class) b.spent)

unfoldable pub dialled : DialBudget → ℕ
dialled b = length b.dialled

unfoldable pub exhausted : DialBudget → Bool
unfolding dialled
exhausted b = leb max_dials (dialled b)

unfoldable pub ceiling : SourceClass → DialBudget → ℕ
unfolding reserved spent_by
ceiling SourceClass.node_witness b = max_dials
ceiling _ b = max_dials - (reserved SourceClass.node_witness - spent_by SourceClass.node_witness b)

-- `dialled.insert(endpoint)`, and one more spent by the class.
unfoldable pub charge : SourceClass → (endpoint : ℕ) → DialBudget → DialBudget
unfolding insert rank spent_by
charge class endpoint b = record {
  dialled = insert endpoint tt b.dialled;
  spent = insert (rank class) (spent_by class b + 1) b.spent;
}

-- `admit` for a class that dials.
unfoldable pub admit_dial : SourceClass → (endpoint : ℕ) → DialBudget → Bool × DialBudget
unfolding get spent_by cap dialled ceiling charge
admit_dial class endpoint b =
    if is_some (get endpoint b.dialled)
    then (true, b)
    else if leb (cap class) (spent_by class b)
    then (false, b)
    else if leb (ceiling class b) (dialled b)
    then (false, b)
    else (true, charge class endpoint b)

unfoldable pub admit : SourceClass → (endpoint : ℕ) → DialBudget → Bool × DialBudget
unfolding admit_dial
admit SourceClass.local_read endpoint b = (true, b)
admit SourceClass.caller_hint endpoint b = admit_dial SourceClass.caller_hint endpoint b
admit SourceClass.peer_hint endpoint b = admit_dial SourceClass.peer_hint endpoint b
admit SourceClass.node_witness endpoint b = admit_dial SourceClass.node_witness endpoint b
admit SourceClass.chain_named endpoint b = admit_dial SourceClass.chain_named endpoint b
admit SourceClass.dns endpoint b = admit_dial SourceClass.dns endpoint b
