-- ===== src/Node/Crawl/Capped.antt =====
-- The crawl of crates/mabel-node/src/graph/crawl.rs, level by level, within its caps.
use mabel.Base.{
  ℕ, zero, suc, ◌+◌, ◌-◌, ◌≤◌, Bool, some, List, [], ◌∷◌, ◌≡◌, refl, ap, sym, ◌∙◌, inl, inr, arith,
  ◌==◌, ltb, is_some, Bool-cases, if_both,
}
use mathlib.Core.Path.{subst}
use mabel.Base.Bytes.{length, take}
use mabel.Base.Map.{get, insert}
use mabel.Base.MapLaws.{get-insert}
use mabel.Node.Crawl.{
  Options, FetchOutcome, Walk, start, bounded_depth, or_empty, cap_nodes, cap_fetches, follow_level,
  members, set_of, places, fetch_one, fetch_level, walk, crawl,
}
use mabel.Node.Crawl.Bounds.{
  length-insert_le, length-take_le, length-take_all, IsCapped, IsCapped-less, SameReads,
  IsCapped-same, follow_level-same, cap_nodes-IsCapped,
}

cap_fetches-IsCapped :
    (o : Options) (level : List ℕ) (w : Walk)
    → w.fetch_count ≤ o.max_fetches
    → (w.fetch_count + length (cap_fetches o level w).0 ≤ o.max_fetches)
      × (length (cap_fetches o level w).0 ≤ length level)
      × SameReads w (cap_fetches o level w).1
unfolding cap_fetches
cap_fetches-IsCapped o level w fits =
    let cut = length-take_le (o.max_fetches - w.fetch_count) level in
    let fewer = length-take_all (o.max_fetches - w.fetch_count) level in
    elim (Bool-cases (ltb o.max_fetches (w.fetch_count + length level))) [
      | inl over ↦
          let all : (w.fetch_count + length (take (o.max_fetches - w.fetch_count) level)
                ≤ o.max_fetches)
              × (length (take (o.max_fetches - w.fetch_count) level) ≤ length level)
              × SameReads w w =
            (omega (arith, cut, fits), fewer, (refl, refl)) in
          rw over all
      | inr small ↦
          let all : (w.fetch_count + length level ≤ o.max_fetches)
              × (length level ≤ length level)
              × SameReads w w =
            (ground (arith, small), omega arith, (refl, refl)) in
          rw small all
    ]

module _ (fetch : ℕ → List ℕ → FetchOutcome) (expired : ℕ → Bool) where
  fetch_one-IsCapped :
      (o : Options) (more level ledger : ℕ) (w : Walk)
      → level ≤ bounded_depth o
      → IsCapped o (suc more) w
      → IsCapped o more (fetch_one fetch expired level ledger w)
  unfolding fetch_one
  fetch_one-IsCapped o more level ledger w shallow c =
      let outcome = fetch ledger (or_empty (get ledger w.hints)) in
      let longer = length-insert_le outcome.ledger (level, outcome) w.outcomes in
      record {
        within_nodes = omega (arith, longer, c.within_nodes);
        within_fetches = omega (arith, c.within_fetches);
        within_depth = λ other at found e.
            let look = get-insert outcome.ledger other (level, outcome) w.outcomes in
            elim (Bool-cases (outcome.ledger == other)) [
              | inl same ↦
                  let made : ℕ × FetchOutcome = (level, outcome) in
                  let now : get other (insert outcome.ledger (level, outcome) w.outcomes)
                      ≡ some made =
                    ground (arith, look, same) in
                  let got : ℕ × FetchOutcome = (at, found) in
                  let is : some made ≡ some got = sym now ∙ e in
                  let levels : level ≡ at = cc in subst (λ n. n ≤ bounded_depth o) levels shallow
              | inr apart ↦ c.within_depth other at found (ground (arith, look, apart, e))
            ];
      }

  fetch_level-IsCapped :
      (o : Options) (room level : ℕ) (ledgers : List ℕ) (w : Walk)
      → level ≤ bounded_depth o
      → IsCapped o (length ledgers) w
      → IsCapped o 0 (fetch_level fetch expired o room level ledgers w).1
  unfolding fetch_level
  fetch_level-IsCapped o room level [] w shallow c = c
  fetch_level-IsCapped o zero level (ledger ∷ ledgers) w shallow c =
      let one = fetch_one-IsCapped o (length ledgers) level ledger w shallow c in
      let stopped = IsCapped-less o (suc (length ledgers)) 0 w (omega arith) c in
      if_both (λ (end : Bool × Walk). IsCapped o 0 (end.1)) (expired w.fetch_count)
        (IsCapped-same o 0 w _ (refl, refl) stopped)
        (fetch_level-IsCapped o (places o) level ledgers (fetch_one fetch expired level ledger w)
          shallow one)
  fetch_level-IsCapped o (suc room) level (ledger ∷ ledgers) w shallow c =
      fetch_level-IsCapped o room level ledgers (fetch_one fetch expired level ledger w) shallow
        (fetch_one-IsCapped o (length ledgers) level ledger w shallow c)

  walk-IsCapped :
      (o : Options) (left level : ℕ) (frontier : List ℕ) (w : Walk)
      → level + left ≡ suc (bounded_depth o)
      → IsCapped o 0 w
      → IsCapped o 0 (walk fetch expired o left level frontier w)
  unfolding walk
  walk-IsCapped o left level [] w levels c = c
  walk-IsCapped o zero level (ledger ∷ ledgers) w levels c = c
  walk-IsCapped o (suc left) level (ledger ∷ ledgers) w levels c =
      let kept = (cap_nodes o (ledger ∷ ledgers) w).0 in
      let w1 = (cap_nodes o (ledger ∷ ledgers) w).1 in
      let kept' = (cap_fetches o kept w1).0 in
      let w2 = (cap_fetches o kept w1).1 in
      let nodes = cap_nodes-IsCapped o (ledger ∷ ledgers) w c in
      let c1 = IsCapped-same o 0 w w1 nodes.1 c in
      let fetches = cap_fetches-IsCapped o kept w1 (omega (arith, c1.within_fetches)) in
      let roomy : IsCapped o (length kept') w1 = record {
        within_nodes = let same = ap length nodes.1.0 in omega (arith, nodes.0, fetches.1, same);
        within_fetches = fetches.0;
        within_depth = c1.within_depth;
      } in
      let c2 = IsCapped-same o (length kept') w1 w2 fetches.2 roomy in
      let w3 = (fetch_level fetch expired o zero level kept' w2).1 in
      let c3 = fetch_level-IsCapped o zero level kept' w2 (omega (arith, levels)) c2 in
      let followed = follow_level (bounded_depth o) level kept' ([], w3) in
      let same4 = follow_level-same (bounded_depth o) level kept' ([], w3) in
      let c4 = IsCapped-same o 0 w3 followed.1 same4 c3 in
      let rest =
        walk-IsCapped o left (suc level) (members followed.0) followed.1 (omega (arith, levels))
          c4 in
      if_both (IsCapped o 0) (fetch_level fetch expired o zero level kept' w2).0 c3
        (if_both (IsCapped o 0) (is_some w2.hard_stop) c4 rest)

  start-IsCapped : (o : Options) → IsCapped o 0 start
  unfolding get
  start-IsCapped o = record {
    within_nodes = omega arith;
    within_fetches = omega arith;
    within_depth = λ ledger level outcome e. absurd cc;
  }

  -- Whatever the fetcher answers and whenever the time runs out, a crawl holds no more ledgers than
  -- `max_nodes`, makes no more fetches than `max_fetches`, and notes no level past the bounded depth.
  pub crawl-IsCapped : (o : Options) (roots : List ℕ) → IsCapped o 0 (crawl fetch expired o roots)
  unfolding crawl
  crawl-IsCapped o roots =
      walk-IsCapped o (suc (bounded_depth o)) 0 (members (set_of roots)) start (omega arith)
        (start-IsCapped o)
