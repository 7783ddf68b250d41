-- ===== src/Node/Crawl.antt =====
-- The crawl of the trust graph: `crawl_with` of crates/mabel-node/src/graph/crawl.rs. The fetcher and
-- the clock are parameters: `fetch` is `fetch_candidate` of a `LedgerFetcher`, on a ledger and the
-- endpoints learned for it, and `expired` is whether the deadline has passed when so many fetches are
-- made, which is asked once before each batch.
pub mod Bounds
pub mod Capped
pub mod Entries
pub mod Near
use mabel.Base.{
  ℕ, zero, suc, ◌+◌, ◌-◌, Bool, true, false, ◌||◌, Option, none, some, List, [], ◌∷◌, ◌++◌, ◌==◌,
  ltb, leb, is_some, if◌then◌else◌,
}
use mabel.Base.Bytes.{length, take}
use mabel.Base.Map.{Map, get, insert}

abbrev pub min_depth : ℕ
min_depth = 1

abbrev pub max_depth : ℕ
max_depth = 4

pub data TruncatedBy : Type 0 where
  nodes fetches time depth : TruncatedBy

pub record Options : Type 0 where
  pub depth : ℕ
  pub max_nodes : ℕ
  pub max_fetches : ℕ
  pub in_flight : ℕ

pub record Edge : Type 0 where
  pub subject : ℕ
  pub attestation_event : ℕ

-- What of a `FetchOutcome` the walk reads: its ledger, the endpoint it came from, and the trust
-- edges of its summary, if it has one.
pub record FetchOutcome : Type 0 where
  pub ledger : ℕ
  pub source : Option ℕ
  pub trust : Option (List Edge)

pub record DiscoveredVia : Type 0 where
  pub identity : ℕ
  pub attestation_event : ℕ

pub record Walk : Type 0 where
  pub outcomes : Map (ℕ × FetchOutcome)
  pub provenance : Map DiscoveredVia
  pub hints : Map (List ℕ)
  pub fetch_count : ℕ
  pub hard_stop : Option TruncatedBy
  pub depth_cut : Bool

abbrev pub start : Walk
start = record {
  outcomes = [];
  provenance = [];
  hints = [];
  fetch_count = 0;
  hard_stop = none;
  depth_cut = false;
}

unfoldable pub bounded_depth : Options → ℕ
bounded_depth o =
    if ltb o.depth min_depth
    then min_depth
    else if ltb max_depth o.depth
    then max_depth
    else o.depth

abbrev pub or_empty : Option (List ℕ) → List ℕ
or_empty none = []
or_empty (some xs) = xs

-- `Option::get_or_insert`.
abbrev pub get_or_insert : TruncatedBy → Option TruncatedBy → Option TruncatedBy
get_or_insert reason none = some reason
get_or_insert reason (some first) = some first

-- The cap on the nodes, on one level.
unfoldable pub cap_nodes : Options → List ℕ → Walk → List ℕ × Walk
unfolding take
cap_nodes o level w =
    if ltb o.max_nodes (length w.outcomes + length level)
    then (
      take (o.max_nodes - length w.outcomes) level,
      record w { hard_stop = get_or_insert TruncatedBy.nodes w.hard_stop },
    )
    else (level, w)

-- The cap on the fetches, on one level.
unfoldable pub cap_fetches : Options → List ℕ → Walk → List ℕ × Walk
unfolding take
cap_fetches o level w =
    if ltb o.max_fetches (w.fetch_count + length level)
    then (
      take (o.max_fetches - w.fetch_count) level,
      record w { hard_stop = get_or_insert TruncatedBy.fetches w.hard_stop },
    )
    else (level, w)

unfoldable pub has : ℕ → List ℕ → Bool
has x [] = false
has x (y ∷ ys) = x == y || has x ys

abbrev pub add_learned : (source : ℕ) → List ℕ → List ℕ
add_learned source learned = if has source learned then learned else learned ++ source ∷ []

-- The hint for a subject, where the ledger that names it was served by an endpoint.
unfoldable pub learn : Option ℕ → (subject : ℕ) → Map (List ℕ) → Map (List ℕ)
unfolding get insert has
learn none subject hints = hints
learn (some source) subject hints =
    insert subject (add_learned source (or_empty (get subject hints))) hints

unfoldable pub note_via : (subject ledger event : ℕ) → Map DiscoveredVia → Map DiscoveredVia
unfolding get insert
note_via subject ledger event provenance =
    if is_some (get subject provenance)
    then provenance
    else insert subject (record { identity = ledger; attestation_event = event }) provenance

-- One edge of a ledger read at `level`: what it adds to the next level, an ordered set.
unfoldable pub follow_edge :
    (depth_cap level ledger : ℕ) → Option ℕ → Edge → Map (Unit {0}) × Walk → Map (Unit {0}) × Walk
unfolding get insert learn note_via
follow_edge depth_cap level ledger source edge (next, w) =
    if is_some (get edge.subject w.outcomes)
    then (next, w)
    else if leb depth_cap level
    then (next, record w { depth_cut = true })
    else (
      insert edge.subject tt next,
      record w {
        provenance = note_via edge.subject ledger edge.attestation_event w.provenance;
        hints = learn source edge.subject w.hints;
      },
    )

unfoldable pub follow_edges :
    (depth_cap level ledger : ℕ)
    → Option ℕ
    → List Edge
    → Map (Unit {0}) × Walk
    → Map (Unit {0}) × Walk
unfolding follow_edge
follow_edges depth_cap level ledger source [] found = found
follow_edges depth_cap level ledger source (edge ∷ edges) found =
    follow_edges depth_cap level ledger source edges
      (follow_edge depth_cap level ledger source edge found)

abbrev pub or_no_edges : Option (List Edge) → List Edge
or_no_edges none = []
or_no_edges (some edges) = edges

abbrev pub follow_outcome :
    (depth_cap level ledger : ℕ)
    → Option (ℕ × FetchOutcome)
    → Map (Unit {0}) × Walk
    → Map (Unit {0}) × Walk
follow_outcome depth_cap level ledger none found = found
follow_outcome depth_cap level ledger (some (_, outcome)) found =
    follow_edges depth_cap level ledger outcome.source (or_no_edges outcome.trust) found

-- The ledgers of a level, in order.
unfoldable pub follow_level :
    (depth_cap level : ℕ) → List ℕ → Map (Unit {0}) × Walk → Map (Unit {0}) × Walk
unfolding get follow_edges
follow_level depth_cap level [] found = found
follow_level depth_cap level (ledger ∷ ledgers) found =
    follow_level depth_cap level ledgers
      (follow_outcome depth_cap level ledger (get ledger found.1.outcomes) found)

unfoldable pub members : Map (Unit {0}) → List ℕ
members [] = []
members ((ledger, _) ∷ ledgers) = ledger ∷ members ledgers

unfoldable pub set_of : List ℕ → Map (Unit {0})
unfolding insert
set_of [] = []
set_of (ledger ∷ ledgers) = insert ledger tt (set_of ledgers)

-- `options.in_flight.max(1) - 1`: the places left in a batch behind its first.
abbrev pub places : Options → ℕ
places o = o.in_flight - 1

module _ (fetch : ℕ → List ℕ → FetchOutcome) (expired : ℕ → Bool) where
  -- One fetch, whose outcome is stored under the ledger that it carries.
  unfoldable pub fetch_one : (level ledger : ℕ) → Walk → Walk
  unfolding get insert
  fetch_one level ledger w =
      let outcome = fetch ledger (or_empty (get ledger w.hints)) in
      record w {
        outcomes = insert outcome.ledger (level, outcome) w.outcomes;
        fetch_count = w.fetch_count + 1;
      }

  -- A level in batches, with `room` places left in the batch that runs. Gives whether the time ran
  -- out, which ends the whole walk.
  unfoldable pub fetch_level : Options → (room level : ℕ) → List ℕ → Walk → Bool × Walk
  unfolding fetch_one
  fetch_level o room level [] w = (false, w)
  fetch_level o zero level (ledger ∷ ledgers) w =
      let rest = fetch_level o (places o) level ledgers (fetch_one level ledger w) in
      if expired w.fetch_count
      then (true, record w { hard_stop = get_or_insert TruncatedBy.time w.hard_stop })
      else rest
  fetch_level o (suc room) level (ledger ∷ ledgers) w =
      fetch_level o room level ledgers (fetch_one level ledger w)

  -- The levels of the walk from `level` on, `left` of them, with the frontier of the first.
  unfoldable pub walk : Options → (left level : ℕ) → List ℕ → Walk → Walk
  unfolding cap_nodes cap_fetches fetch_level follow_level members bounded_depth
  walk o left level [] w = w
  walk o zero level (ledger ∷ ledgers) w = w
  walk o (suc left) level (ledger ∷ ledgers) w =
      let (kept, w1) = cap_nodes o (ledger ∷ ledgers) w in
      let (kept', w2) = cap_fetches o kept w1 in
      let (out_of_time, w3) = fetch_level o zero level kept' w2 in
      let (next, w4) = follow_level (bounded_depth o) level kept' ([], w3) in
      let rest = walk o left (suc level) (members next) w4 in
      if out_of_time then w3 else if is_some w2.hard_stop then w4 else rest

  -- `crawl_with` up to the documents that it renders.
  unfoldable pub crawl : Options → List ℕ → Walk
  unfolding walk set_of members bounded_depth
  crawl o roots = walk o (suc (bounded_depth o)) 0 (members (set_of roots)) start

-- The reason the summary gives for what was cut off.
unfoldable pub truncated_by : Walk → Option TruncatedBy
truncated_by w = elim w.hard_stop [
  | some reason ↦ some reason
  | none ↦ if w.depth_cut then some TruncatedBy.depth else none
]
