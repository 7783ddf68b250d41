-- ===== src/Node/Crawl/Bounds.antt =====
-- The caps of the crawl of crates/mabel-node/src/graph/crawl.rs.
use mabel.Base.{
  ℕ, zero, suc, ◌+◌, ◌-◌, ◌≤◌, Option, none, some, List, [], ◌∷◌, ◌≡◌, refl, ap, sym, ◌∙◌, inl, inr,
  arith, ltb, leb, is_some, Bool-cases, if_both,
}
use mathlib.Core.Path.{subst}
use mabel.Base.Bytes.{length, take}
use mabel.Base.Map.{Map, get, insert}
use mabel.Node.Crawl.{
  Options, Edge, FetchOutcome, Walk, bounded_depth, cap_nodes, follow_edge, follow_edges,
  follow_outcome, follow_level, or_no_edges,
}

pub length-insert_le {ℓ} :
    {V : Type ℓ} (k : ℕ) (v : V) (m : Map V) → length (insert k v m) ≤ length m + 1
unfolding insert
length-insert_le k v [] = omega arith
length-insert_le k v ((j, w) ∷ m) = ground (arith, length-insert_le k v m)

pub length-take_le : (n : ℕ) (xs : List ℕ) → length (take n xs) ≤ n
unfolding take
length-take_le zero xs = omega arith
length-take_le (suc n) [] = omega arith
length-take_le (suc n) (x ∷ xs) = omega (arith, length-take_le n xs)

pub length-take_all : (n : ℕ) (xs : List ℕ) → length (take n xs) ≤ length xs
unfolding take
length-take_all zero xs = omega arith
length-take_all (suc n) [] = omega arith
length-take_all (suc n) (x ∷ xs) = omega (arith, length-take_all n xs)

-- Both caps hold with room for `more` fetches, and no ledger was read beyond the depth.
pub record IsCapped (o : Options) (more : ℕ) (w : Walk) : Type 0 where
  pub within_nodes : length w.outcomes + more ≤ o.max_nodes
  pub within_fetches : w.fetch_count + more ≤ o.max_fetches
  pub within_depth :
      (ledger level : ℕ) (outcome : FetchOutcome)
      → get ledger w.outcomes ≡ some (level, outcome)
      → level ≤ bounded_depth o

pub IsCapped-less :
    (o : Options) (more less : ℕ) (w : Walk) → less ≤ more → IsCapped o more w → IsCapped o less w
IsCapped-less o more less w h c = record {
  within_nodes = omega (arith, h, c.within_nodes);
  within_fetches = omega (arith, h, c.within_fetches);
  within_depth = c.within_depth;
}

-- What of a walk the caps are about.
abbrev pub SameReads : Walk → Walk → Type 0
SameReads w w' = (w'.outcomes ≡ w.outcomes) × (w'.fetch_count ≡ w.fetch_count)

pub IsCapped-same :
    (o : Options) (more : ℕ) (w w' : Walk) → SameReads w w' → IsCapped o more w → IsCapped o more w'
IsCapped-same o more w w' same c = record {
  within_nodes = subst (λ m. length m + more ≤ o.max_nodes) (sym same.0) c.within_nodes;
  within_fetches = subst (λ n. n + more ≤ o.max_fetches) (sym same.1) c.within_fetches;
  within_depth = λ ledger level outcome e.
      c.within_depth ledger level outcome (ap (get ledger) (sym same.0) ∙ e);
}

follow_edge-same :
    (depth_cap level ledger : ℕ) (source : Option ℕ) (edge : Edge) (next : Map (Unit {0}))
    (w : Walk)
    → SameReads w (follow_edge depth_cap level ledger source edge (next, w)).1
unfolding follow_edge
follow_edge-same depth_cap level ledger source edge next w =
    if_both (λ (found : Map (Unit {0}) × Walk). SameReads w (found.1))
      (is_some (get edge.subject w.outcomes)) (refl, refl)
      (if_both (λ (found : Map (Unit {0}) × Walk). SameReads w (found.1)) (leb depth_cap level)
        (refl, refl) (refl, refl))

follow_edges-same :
    (depth_cap level ledger : ℕ) (source : Option ℕ) (edges : List Edge)
    (found : Map (Unit {0}) × Walk)
    → SameReads found.1 (follow_edges depth_cap level ledger source edges found).1
unfolding follow_edges
follow_edges-same depth_cap level ledger source [] found = (refl, refl)
follow_edges-same depth_cap level ledger source (edge ∷ edges) (next, w) =
    let found' = follow_edge depth_cap level ledger source edge (next, w) in
    let one = follow_edge-same depth_cap level ledger source edge next w in
    let rest = follow_edges-same depth_cap level ledger source edges found' in
    (rest.0 ∙ one.0, rest.1 ∙ one.1)

pub follow_outcome-same :
    (depth_cap level ledger : ℕ) (held : Option (ℕ × FetchOutcome)) (found : Map (Unit {0}) × Walk)
    → SameReads found.1 (follow_outcome depth_cap level ledger held found).1
follow_outcome-same depth_cap level ledger none found = (refl, refl)
follow_outcome-same depth_cap level ledger (some (_, outcome)) found =
    follow_edges-same depth_cap level ledger outcome.source (or_no_edges outcome.trust) found

pub follow_level-same :
    (depth_cap level : ℕ) (ledgers : List ℕ) (found : Map (Unit {0}) × Walk)
    → SameReads found.1 (follow_level depth_cap level ledgers found).1
unfolding follow_level
follow_level-same depth_cap level [] found = (refl, refl)
follow_level-same depth_cap level (ledger ∷ ledgers) found =
    let held = get ledger found.1.outcomes in
    let found' = follow_outcome depth_cap level ledger held found in
    let one = follow_outcome-same depth_cap level ledger held found in
    let rest = follow_level-same depth_cap level ledgers found' in (rest.0 ∙ one.0, rest.1 ∙ one.1)

-- A level that was cut to both caps leaves room for its fetches.
pub cap_nodes-IsCapped :
    (o : Options) (level : List ℕ) (w : Walk)
    → IsCapped o 0 w
    → (length w.outcomes + length (cap_nodes o level w).0 ≤ o.max_nodes)
      × SameReads w (cap_nodes o level w).1
unfolding cap_nodes
cap_nodes-IsCapped o level w c =
    let cut = length-take_le (o.max_nodes - length w.outcomes) level in
    let fits = c.within_nodes in
    elim (Bool-cases (ltb o.max_nodes (length w.outcomes + length level))) [
      | inl over ↦
          let both : (length w.outcomes + length (take (o.max_nodes - length w.outcomes) level)
                ≤ o.max_nodes)
              × SameReads w w =
            (omega (arith, cut, fits), (refl, refl)) in
          rw over both
      | inr small ↦
          let both : (length w.outcomes + length level ≤ o.max_nodes) × SameReads w w =
            (ground (arith, small), (refl, refl)) in
          rw small both
    ]
