-- ===== src/Node/Budget/Bounds.antt =====
-- What the dial budget of crates/mabel-node/src/graph/resolve.rs never exceeds.
use mabel.Base.{
  ℕ, suc, ◌+◌, ◌-◌, ◌≤◌, ◌<◌, none, [], ◌∷◌, ◌≡◌, ◌≢◌, ◌⊎◌, inl, inr, refl, ap, sym, ◌∙◌, arith,
  ◌==◌, Bool-cases, if◌then◌else◌,
}
use mathlib.Core.Path.{subst}
use mabel.Base.Bytes.{length}
use mabel.Base.Map.{Map, get, insert}
use mabel.Base.MapLaws.{get-insert}
use mabel.Node.Budget.{
  SourceClass, DialBudget, cap, reserved, rank, spent_by, dialled, ceiling, charge,
}

pub length-insert {ℓ} :
    {V : Type ℓ} (k : ℕ) (v : V) (m : Map V)
    → get k m ≡ none
    → length (insert k v m) ≡ suc (length m)
unfolding get insert
length-insert k v [] h = refl
length-insert k v ((j, w) ∷ m) h = ground (arith, length-insert k v m)

dialled-charge :
    (class : SourceClass) (endpoint : ℕ) (b : DialBudget)
    → get endpoint b.dialled ≡ none
    → dialled (charge class endpoint b) ≡ dialled b + 1
unfolding dialled charge
dialled-charge class endpoint b new =
    let longer = length-insert endpoint tt b.dialled new in omega (arith, longer)

-- What all classes but the node's witnesses have spent.
abbrev pub spent_by_others : DialBudget → ℕ
spent_by_others b =
    spent_by SourceClass.caller_hint b
    + spent_by SourceClass.peer_hint b
    + spent_by SourceClass.chain_named b
    + spent_by SourceClass.dns b

-- Each class is within its cap, the classes together spent what was dialled, which is at most 16,
-- and four of the 16 are left to the node's witnesses.
pub record IsWithin (b : DialBudget) : Type 0 where
  pub by_class : (class : SourceClass) → spent_by class b ≤ cap class
  pub all_spent : dialled b ≡ spent_by SourceClass.node_witness b + spent_by_others b
  pub in_all : dialled b ≤ 16
  pub four_left : spent_by_others b ≤ 12

unrank : ℕ → SourceClass
unrank n =
    if n == 0
    then SourceClass.local_read
    else if n == 1
    then SourceClass.caller_hint
    else if n == 2
    then SourceClass.peer_hint
    else if n == 3
    then SourceClass.node_witness
    else if n == 4
    then SourceClass.chain_named
    else SourceClass.dns

unrank-rank : (class : SourceClass) → unrank (rank class) ≡ class
unfolding rank unrank
unrank-rank SourceClass.local_read = refl
unrank-rank SourceClass.caller_hint = refl
unrank-rank SourceClass.peer_hint = refl
unrank-rank SourceClass.node_witness = refl
unrank-rank SourceClass.chain_named = refl
unrank-rank SourceClass.dns = refl

rank-injective : (a b : SourceClass) → rank a ≡ rank b → a ≡ b
rank-injective a b e = sym (unrank-rank a) ∙ ap unrank e ∙ unrank-rank b

abbrev one_if_same : SourceClass → SourceClass → ℕ
one_if_same class other = if rank class == rank other then 1 else 0

spent_by-charge :
    (class other : SourceClass) (endpoint : ℕ) (b : DialBudget)
    → spent_by other (charge class endpoint b) ≡ spent_by other b + one_if_same class other
unfolding spent_by charge
spent_by-charge class other endpoint b =
    let look = get-insert (rank class) (rank other) (spent_by class b + 1) b.spent in
    ground (arith, look)

-- A charge counts once, for the node's witnesses or for the others.
shares :
    (class : SourceClass) (b : DialBudget)
    → class ≢ SourceClass.local_read
    → ((one_if_same class SourceClass.node_witness ≡ 1)
        × (one_if_same class SourceClass.caller_hint
              + one_if_same class SourceClass.peer_hint
              + one_if_same class SourceClass.chain_named
              + one_if_same class SourceClass.dns
            ≡ 0)
        × (ceiling class b ≡ 16))
      ⊎ ((one_if_same class SourceClass.node_witness ≡ 0)
          × (one_if_same class SourceClass.caller_hint
                + one_if_same class SourceClass.peer_hint
                + one_if_same class SourceClass.chain_named
                + one_if_same class SourceClass.dns
              ≡ 1)
          × (ceiling class b ≡ 16 - (4 - spent_by SourceClass.node_witness b)))
unfolding rank ceiling reserved
shares SourceClass.local_read b h = absurd (h refl)
shares SourceClass.caller_hint b h = inr (refl, refl, refl)
shares SourceClass.peer_hint b h = inr (refl, refl, refl)
shares SourceClass.node_witness b h = inl (refl, refl, refl)
shares SourceClass.chain_named b h = inr (refl, refl, refl)
shares SourceClass.dns b h = inr (refl, refl, refl)

charge-by_class :
    (class other : SourceClass) (endpoint : ℕ) (b : DialBudget)
    → spent_by class b < cap class
    → spent_by other b ≤ cap other
    → spent_by other (charge class endpoint b) ≤ cap other
charge-by_class class other endpoint b room within =
    let more = spent_by-charge class other endpoint b in
    elim (Bool-cases (rank class == rank other)) [
      | inl same ↦
          let one = rank-injective class other (ground (arith, same)) in
          let room' = subst (λ k. spent_by k b < cap k) one room in
          ground (arith, more, room', same)
      | inr apart ↦ ground (arith, more, within, apart)
    ]

pub charge-IsWithin :
    (class : SourceClass) (endpoint : ℕ) (b : DialBudget)
    → class ≢ SourceClass.local_read
    → get endpoint b.dialled ≡ none
    → spent_by class b < cap class
    → dialled b < ceiling class b
    → IsWithin b
    → IsWithin (charge class endpoint b)
charge-IsWithin class endpoint b h new room space within =
    let caller = spent_by-charge class SourceClass.caller_hint endpoint b in
    let peer = spent_by-charge class SourceClass.peer_hint endpoint b in
    let node = spent_by-charge class SourceClass.node_witness endpoint b in
    let chain = spent_by-charge class SourceClass.chain_named endpoint b in
    let dns = spent_by-charge class SourceClass.dns endpoint b in
    let longer = dialled-charge class endpoint b new in
    let all = within.all_spent in
    let four = within.four_left in
    let most = within.in_all in
    let by_class' = λ (other : SourceClass).
      charge-by_class class other endpoint b room (within.by_class other) in
    elim (shares class b h) [
      | inl (one, none_else, top) ↦ record {
        by_class = by_class';
        all_spent = omega (arith, caller, peer, node, chain, dns, longer, all, one, none_else);
        in_all = omega (arith, longer, top, space);
        four_left = omega (arith, caller, peer, chain, dns, four, none_else);
      }
      | inr (none_here, one, top) ↦ record {
        by_class = by_class';
        all_spent = omega (arith, caller, peer, node, chain, dns, longer, all, one, none_here);
        in_all = omega (arith, longer, top, space);
        four_left = omega (arith, caller, peer, chain, dns, all, four, one, top, space);
      }
    ]
