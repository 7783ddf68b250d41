-- ===== src/Node/Crawl/Near.antt =====
-- How far from its roots the crawl of crates/mabel-node/src/graph/crawl.rs reads: along the trust
-- edges that the fetcher answers with.
use mabel.Base.{
  ℕ, zero, suc, ◌+◌, ◌-◌, ◌≤◌, Bool, Option, none, some, List, [], ◌∷◌, ◌≡◌, ◌⊎◌, refl, sym, inl,
  inr, arith, ltb, leb, is_some, if_both,
}
use mathlib.Core.Path.{subst}
use mabel.Base.Bytes.{length}
use mabel.Base.Map.{Map, get}
use mabel.Node.Crawl.{
  Options, Edge, FetchOutcome, Walk, start, or_empty, or_no_edges, cap_nodes, cap_fetches,
  follow_edge, follow_edges, follow_outcome, follow_level, members, set_of, places, fetch_one,
  fetch_level, walk, crawl, bounded_depth,
}
use mabel.Node.Crawl.Entries.{
  IsIn, All, All-insert, All-get, Each, Each-take, Each-members, All-set_of, Each-IsIn,
}
use mabel.Node.Crawl.Bounds.{follow_outcome-same, follow_level-same}
use mabel.Node.Crawl.Capped.{crawl-IsCapped}

abbrev pub IsSubject : ℕ → List Edge → Type 0
IsSubject x [] = ⊥
IsSubject x (edge ∷ edges) = (edge.subject ≡ x) ⊎ IsSubject x edges

bounded_depth_le_4 : (level : ℕ) (o : Options) → level ≤ bounded_depth o → level ≤ 4
unfolding bounded_depth
bounded_depth_le_4 level o h = ground (arith, h)

bounded_depth_le :
    (level : ℕ) (o : Options) → level ≤ bounded_depth o → (level ≤ o.depth) ⊎ (level ≤ 1)
unfolding bounded_depth
bounded_depth_le level o h = ground (arith, h)

module _ (fetch : ℕ → List ℕ → FetchOutcome) where
  -- The ledger is reached from a root by so many attestations, each named by the ledger before it
  -- when that was fetched.
  abbrev pub IsReached : List ℕ → (steps ledger : ℕ) → Type 0
  IsReached roots zero ledger = IsIn ledger roots
  IsReached roots (suc steps) ledger =
      (via : ℕ) × (learned : List ℕ) × IsReached roots steps via
      × IsSubject ledger (or_no_edges (fetch via learned).trust)

  -- The outcome is of a fetch of its ledger, which is as many steps away as the walk notes, and no
  -- more than `most`.
  abbrev pub IsTraced : (most : ℕ) → List ℕ → ℕ → ℕ × FetchOutcome → Type 0
  IsTraced most roots ledger (level, outcome) =
      (level ≤ most)
      × IsReached roots level ledger
      × ((learned : List ℕ) × (outcome ≡ fetch ledger learned))

  follow_edge-IsReached :
      (roots : List ℕ) (depth_cap level ledger : ℕ) (source : Option ℕ) (edge : Edge)
      (next : Map (Unit {0})) (w : Walk)
      → IsReached roots (suc level) edge.subject
      → All (λ k _. IsReached roots (suc level) k) next
      → All
          (λ k _. IsReached roots (suc level) k)
          (follow_edge depth_cap level ledger source edge (next, w)).0
  unfolding follow_edge
  follow_edge-IsReached roots depth_cap level ledger source edge next w new h =
      let P =
        λ (found : Map (Unit {0}) × Walk). All (λ k _. IsReached roots (suc level) k) (found.0) in
      if_both P (is_some (get edge.subject w.outcomes)) h (
        if_both P (leb depth_cap level) h
          (All-insert (λ k _. IsReached roots (suc level) k) edge.subject tt next new h))

  follow_edges-IsReached :
      (roots : List ℕ) (depth_cap level ledger : ℕ) (source : Option ℕ) (edges : List Edge)
      (found : Map (Unit {0}) × Walk)
      → ((x : ℕ) → IsSubject x edges → IsReached roots (suc level) x)
      → All (λ k _. IsReached roots (suc level) k) found.0
      → All
          (λ k _. IsReached roots (suc level) k)
          (follow_edges depth_cap level ledger source edges found).0
  unfolding follow_edges
  follow_edges-IsReached roots depth_cap level ledger source [] found near h = h
  follow_edges-IsReached roots depth_cap level ledger source (edge ∷ edges) (next, w) near h =
      follow_edges-IsReached roots depth_cap level ledger source edges
        (follow_edge depth_cap level ledger source edge (next, w)) (λ x i. near x (inr i))
        (follow_edge-IsReached roots depth_cap level ledger source edge next w
          (near edge.subject (inl refl)) h)

  follow_outcome-IsReached :
      (most : ℕ) (roots : List ℕ) (depth_cap level ledger : ℕ) (held : Option (ℕ × FetchOutcome))
      (found : Map (Unit {0}) × Walk)
      → IsReached roots level ledger
      → ((entry : ℕ × FetchOutcome) → held ≡ some entry → IsTraced most roots ledger entry)
      → All (λ k _. IsReached roots (suc level) k) found.0
      → All
          (λ k _. IsReached roots (suc level) k)
          (follow_outcome depth_cap level ledger held found).0
  follow_outcome-IsReached most roots depth_cap level ledger none found reached traced h = h
  follow_outcome-IsReached most roots depth_cap level ledger (some (at, outcome)) found reached
        traced h =
      let (_, _, (learned, is)) = traced (at, outcome) refl in
      follow_edges-IsReached roots depth_cap level ledger outcome.source (or_no_edges outcome.trust)
        found
        (λ x i. (
          ledger,
          learned,
          reached,
          subst (λ (f : FetchOutcome). IsSubject x (or_no_edges f.trust)) is i,
        ))
        h

  follow_level-IsReached :
      (most : ℕ) (roots : List ℕ) (depth_cap level : ℕ) (ledgers : List ℕ)
      (found : Map (Unit {0}) × Walk)
      → Each (IsReached roots level) ledgers
      → All (IsTraced most roots) found.1.outcomes
      → All (λ k _. IsReached roots (suc level) k) found.0
      → All (λ k _. IsReached roots (suc level) k) (follow_level depth_cap level ledgers found).0
  unfolding follow_level
  follow_level-IsReached most roots depth_cap level [] found reached traced h = h
  follow_level-IsReached most roots depth_cap level (ledger ∷ ledgers) found reached traced h =
      let held = get ledger found.1.outcomes in
      let found' = follow_outcome depth_cap level ledger held found in
      let same = follow_outcome-same depth_cap level ledger held found in
      follow_level-IsReached most roots depth_cap level ledgers found' reached.1
        (subst (All (IsTraced most roots)) (sym same.0) traced)
        (follow_outcome-IsReached most roots depth_cap level ledger held found reached.0
          (λ entry e. All-get (IsTraced most roots) ledger entry found.1.outcomes traced e) h)

  cap_nodes-IsTraced :
      (roots : List ℕ) (o : Options) (most at : ℕ) (level : List ℕ) (w : Walk)
      → Each (IsReached roots at) level
      → All (IsTraced most roots) w.outcomes
      → Each (IsReached roots at) (cap_nodes o level w).0
        × All (IsTraced most roots) (cap_nodes o level w).1.outcomes
  unfolding cap_nodes
  cap_nodes-IsTraced roots o most at level w near h =
      if_both
        (λ (cut : List ℕ × Walk).
          Each (IsReached roots at) (cut.0) × All (IsTraced most roots) (cut.1.outcomes))
        (ltb o.max_nodes (length w.outcomes + length level))
        (Each-take (IsReached roots at) (o.max_nodes - length w.outcomes) level near, h) (near, h)

  cap_fetches-IsTraced :
      (roots : List ℕ) (o : Options) (most at : ℕ) (level : List ℕ) (w : Walk)
      → Each (IsReached roots at) level
      → All (IsTraced most roots) w.outcomes
      → Each (IsReached roots at) (cap_fetches o level w).0
        × All (IsTraced most roots) (cap_fetches o level w).1.outcomes
  unfolding cap_fetches
  cap_fetches-IsTraced roots o most at level w near h =
      if_both
        (λ (cut : List ℕ × Walk).
          Each (IsReached roots at) (cut.0) × All (IsTraced most roots) (cut.1.outcomes))
        (ltb o.max_fetches (w.fetch_count + length level))
        (Each-take (IsReached roots at) (o.max_fetches - w.fetch_count) level near, h) (near, h)

  module _ (expired : ℕ → Bool) where
    fetch_one-IsTraced :
        (most : ℕ) (roots : List ℕ) (level ledger : ℕ) (w : Walk)
        → ((asked : ℕ) (learned : List ℕ) → (fetch asked learned).ledger ≡ asked)
        → level ≤ most
        → IsReached roots level ledger
        → All (IsTraced most roots) w.outcomes
        → All (IsTraced most roots) (fetch_one fetch expired level ledger w).outcomes
    unfolding fetch_one
    fetch_one-IsTraced most roots level ledger w answers shallow reached h =
        let learned = or_empty (get ledger w.hints) in
        let entry : ℕ × FetchOutcome = (level, fetch ledger learned) in
        let traced : IsTraced most roots ledger entry = (shallow, reached, (learned, refl)) in
        All-insert (IsTraced most roots) (fetch ledger learned).ledger entry w.outcomes
          (subst (λ k. IsTraced most roots k entry) (sym (answers ledger learned)) traced) h

    fetch_level-IsTraced :
        (most : ℕ) (roots : List ℕ) (o : Options) (room level : ℕ) (ledgers : List ℕ) (w : Walk)
        → ((asked : ℕ) (learned : List ℕ) → (fetch asked learned).ledger ≡ asked)
        → level ≤ most
        → Each (IsReached roots level) ledgers
        → All (IsTraced most roots) w.outcomes
        → All (IsTraced most roots) (fetch_level fetch expired o room level ledgers w).1.outcomes
    unfolding fetch_level
    fetch_level-IsTraced most roots o room level [] w answers shallow reached h = h
    fetch_level-IsTraced most roots o zero level (ledger ∷ ledgers) w answers shallow reached h =
        let one = fetch_one-IsTraced most roots level ledger w answers shallow reached.0 h in
        if_both (λ (end : Bool × Walk). All (IsTraced most roots) (end.1.outcomes))
          (expired w.fetch_count) h
          (fetch_level-IsTraced most roots o (places o) level ledgers
            (fetch_one fetch expired level ledger w) answers shallow reached.1 one)
    fetch_level-IsTraced most roots o (suc room) level (ledger ∷ ledgers) w answers shallow reached
          h =
        fetch_level-IsTraced most roots o room level ledgers
          (fetch_one fetch expired level ledger w) answers shallow reached.1
          (fetch_one-IsTraced most roots level ledger w answers shallow reached.0 h)

    walk-IsTraced :
        (roots : List ℕ) (o : Options) (left level : ℕ) (frontier : List ℕ) (w : Walk)
        → ((asked : ℕ) (learned : List ℕ) → (fetch asked learned).ledger ≡ asked)
        → level + left ≡ suc (bounded_depth o)
        → Each (IsReached roots level) frontier
        → All (IsTraced (bounded_depth o) roots) w.outcomes
        → All
            (IsTraced (bounded_depth o) roots)
            (walk fetch expired o left level frontier w).outcomes
    unfolding walk
    walk-IsTraced roots o left level [] w answers levels reached h = h
    walk-IsTraced roots o zero level (ledger ∷ ledgers) w answers levels reached h = h
    walk-IsTraced roots o (suc left) level (ledger ∷ ledgers) w answers levels reached h =
        let most = bounded_depth o in
        let T = λ (end : Walk). All (IsTraced most roots) end.outcomes in
        let kept = (cap_nodes o (ledger ∷ ledgers) w).0 in
        let w1 = (cap_nodes o (ledger ∷ ledgers) w).1 in
        let kept' = (cap_fetches o kept w1).0 in
        let w2 = (cap_fetches o kept w1).1 in
        let (near1, h1) = cap_nodes-IsTraced roots o most level (ledger ∷ ledgers) w reached h in
        let (near2, h2) = cap_fetches-IsTraced roots o most level kept w1 near1 h1 in
        let w3 = (fetch_level fetch expired o zero level kept' w2).1 in
        let h3 =
          fetch_level-IsTraced most roots o zero level kept' w2 answers (omega (arith, levels))
            near2 h2 in
        let followed = follow_level most level kept' ([], w3) in
        let same = follow_level-same most level kept' ([], w3) in
        let h4 = subst (All (IsTraced most roots)) (sym same.0) h3 in
        let next = follow_level-IsReached most roots most level kept' ([], w3) near2 h3 tt in
        let rest =
          walk-IsTraced roots o left (suc level) (members followed.0) followed.1 answers
            (omega (arith, levels)) (Each-members (IsReached roots (suc level)) followed.0 next)
            h4 in
        if_both T (fetch_level fetch expired o zero level kept' w2).0 h3
          (if_both T (is_some w2.hard_stop) h4 rest)

  -- What a caller is told of a ledger that a crawl of these options holds: it was read at most four
  -- steps from a root, and at most `depth` or one, and the trust edges lead there in those steps.
  abbrev pub IsNear : Options → List ℕ → ℕ → ℕ × FetchOutcome → Type 0
  IsNear o roots ledger (level, outcome) =
      (level ≤ 4) × ((level ≤ o.depth) ⊎ (level ≤ 1)) × IsReached roots level ledger

  All-IsNear :
      (o : Options) (roots : List ℕ) (m : Map (ℕ × FetchOutcome))
      → All (IsTraced (bounded_depth o) roots) m
      → All (IsNear o roots) m
  All-IsNear o roots [] h = tt
  All-IsNear o roots ((ledger, (level, outcome)) ∷ m) ((shallow, reached, _), h) = (
    (bounded_depth_le_4 level o shallow, bounded_depth_le level o shallow, reached),
    All-IsNear o roots m h,
  )

  -- Where each answer of the fetcher is of the ledger that was asked for, whenever the time runs
  -- out, a crawl holds no more ledgers than `max_nodes` and makes no more fetches than
  -- `max_fetches`, and each ledger that it holds is some number of trust edges away from a root,
  -- along edges of the answers themselves: no more than four, and no more than `depth` or one.
  pub crawl-IsNear :
      (expired : ℕ → Bool) (o : Options) (roots : List ℕ)
      → ((asked : ℕ) (learned : List ℕ) → (fetch asked learned).ledger ≡ asked)
      → (length (crawl fetch expired o roots).outcomes ≤ o.max_nodes)
        × ((crawl fetch expired o roots).fetch_count ≤ o.max_fetches)
        × All (IsNear o roots) (crawl fetch expired o roots).outcomes
  unfolding crawl
  crawl-IsNear expired o roots answers =
      let caps = crawl-IsCapped fetch expired o roots in
      let set = All-set_of (λ x. IsIn x roots) roots (Each-IsIn roots roots (λ x i. i)) in
      let traced =
        walk-IsTraced expired roots o (suc (bounded_depth o)) 0 (members (set_of roots)) start
          answers (omega arith) (Each-members (λ x. IsIn x roots) (set_of roots) set) tt in
      (
        omega (arith, caps.within_nodes),
        omega (arith, caps.within_fetches),
        All-IsNear o roots (crawl fetch expired o roots).outcomes traced,
      )
