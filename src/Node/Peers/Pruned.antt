-- ===== src/Node/Peers/Pruned.antt =====
-- What `prune` of crates/mabel-node/src/peers.rs drops, and what `hints_at` gives after it.
use mabel.Base.{
  ℕ, ◌≤◌, ◌<◌, Bool, false, not, none, some, List, [], ◌∷◌, map, ◌≡◌, refl, ap, sym, ◌∙◌, inl, inr,
  arith, ◌==◌, Bool-cases, Option-cases, if◌then◌else◌,
}
use mathlib.Core.Path.{subst}
use mabel.Base.Bytes.{length}
use mabel.Base.Map.{get, IsAbove, IsOrdered}
use mabel.Base.MapLaws.{IsAbove-get}
use mabel.Node.Peers.{
  PeerHint, Peers, names, or_default, keep, put_kept, prune, aged_out, live, hints_at,
  freshest_first,
}
use mabel.Node.Peers.Hints.{IsDistinct}
use mabel.Node.Peers.Tidy.{
  or_default-IsDistinct, or_default-length, IsTidyPeers, Shrinks, Shrinks-cons,
}

-- The test of `retain`.
abbrev recent : ℕ → PeerHint → Bool
recent now hint = not (aged_out now hint)

keep-Shrinks : (test : PeerHint → Bool) (hints : List PeerHint) → Shrinks hints (keep test hints)
unfolding keep names
keep-Shrinks test [] = (λ e absent. absent, λ d. d, omega arith)
keep-Shrinks test (hint ∷ hints) =
    let rest = keep-Shrinks test hints in
    elim (Bool-cases (test hint)) [
      | inl stays ↦
          let both = Shrinks-cons hint hint hints (keep test hints) refl rest in rw stays both
      | inr goes ↦
          let less : Shrinks (hint ∷ hints) (keep test hints) = (
            λ e absent. let below = rest.0 e in ground (arith, below, absent),
            λ d. rest.1 d.1,
            omega (arith, rest.2),
          ) in
          rw goes less
    ]

IsAbove-put_kept :
    (a ledger : ℕ) (hints : List PeerHint) (peers : Peers)
    → a < ledger
    → IsAbove a peers
    → IsAbove a (put_kept ledger hints peers)
IsAbove-put_kept a ledger [] peers lt h = h
IsAbove-put_kept a ledger (hint ∷ hints) peers lt h = (lt, h)

IsAbove-prune : (now a : ℕ) (peers : Peers) → IsAbove a peers → IsAbove a (prune now peers)
unfolding prune
IsAbove-prune now a [] h = tt
IsAbove-prune now a ((ledger, hints) ∷ peers) h =
    IsAbove-put_kept a ledger (keep (recent now) hints) (prune now peers) h.0
      (IsAbove-prune now a peers h.1)

put_kept-IsOrdered :
    (ledger : ℕ) (hints : List PeerHint) (peers : Peers)
    → IsAbove ledger peers
    → IsOrdered peers
    → IsOrdered (put_kept ledger hints peers)
put_kept-IsOrdered ledger [] peers above h = h
put_kept-IsOrdered ledger (hint ∷ hints) peers above h = (above, h)

prune-IsOrdered : (now : ℕ) (peers : Peers) → IsOrdered peers → IsOrdered (prune now peers)
unfolding prune
prune-IsOrdered now [] h = tt
prune-IsOrdered now ((ledger, hints) ∷ peers) h =
    put_kept-IsOrdered ledger (keep (recent now) hints) (prune now peers)
      (IsAbove-prune now ledger peers h.0) (prune-IsOrdered now peers h.1)

get-IsAbove : (a : ℕ) (peers : Peers) → IsAbove a peers → get a peers ≡ none
get-IsAbove a peers h = elim (Option-cases (get a peers)) [
  | inl e ↦ e
  | inr (hints, e) ↦ absurd (omega (arith, IsAbove-get a a hints peers h e))
]

get-put_kept :
    (k ledger : ℕ) (hints : List PeerHint) (peers : Peers)
    → get ledger peers ≡ none
    → or_default (get k (put_kept ledger hints peers))
      ≡ (if ledger == k then hints else or_default (get k peers))
unfolding get
get-put_kept k ledger [] peers h = elim (Bool-cases (ledger == k)) [
  | inl same ↦
      let is : ledger ≡ k = ground (arith, same) in
      let none_there : get k peers ≡ none = ap (λ i. get i peers) (sym is) ∙ h in
      ground (arith, same, none_there)
  | inr apart ↦ ground (arith, apart)
]
get-put_kept k ledger (hint ∷ hints) peers h = ground arith

-- What a pruned file has for a ledger is what it had, less the hints that aged out.
get-prune :
    (now k : ℕ) (peers : Peers)
    → IsOrdered peers
    → or_default (get k (prune now peers)) ≡ keep (recent now) (or_default (get k peers))
unfolding prune get keep
get-prune now k [] h = refl
get-prune now k ((ledger, hints) ∷ peers) h =
    let gone = get-IsAbove ledger (prune now peers) (IsAbove-prune now ledger peers h.0) in
    let look = get-put_kept k ledger (keep (recent now) hints) (prune now peers) gone in
    let ih = get-prune now k peers h.1 in ground (arith, look, ih)

live-recent :
    (now later : ℕ) (hint : PeerHint)
    → now ≤ later
    → recent now hint ≡ false
    → live later hint ≡ false
unfolding live aged_out
live-recent now later hint h old = ground (arith, h, old)

keep-keep :
    (now later : ℕ) (hints : List PeerHint)
    → now ≤ later
    → keep (live later) (keep (recent now) hints) ≡ keep (live later) hints
unfolding keep
keep-keep now later [] h = refl
keep-keep now later (hint ∷ hints) h =
    let ih = keep-keep now later hints h in
    let dead = live-recent now later hint h in ground (arith, ih, dead)

-- Pruning takes away no endpoint that would be dialled: what `hints_at` gives at that time or any
-- later one, and its order, is the same with and without it.
pub hints_at-prune :
    (ledger now later : ℕ) (peers : Peers)
    → IsOrdered peers
    → now ≤ later
    → hints_at ledger later (prune now peers) ≡ hints_at ledger later peers
unfolding hints_at
hints_at-prune ledger now later peers h le =
    let kept = get-prune now ledger peers h in
    let same = keep-keep now later (or_default (get ledger peers)) le in
    ap
      (λ hints. map (λ (hint : PeerHint). hint.endpoint) (freshest_first (keep (live later) hints)))
      kept
    ∙ ap (λ hints. map (λ (hint : PeerHint). hint.endpoint) (freshest_first hints)) same

put_kept-some :
    (k ledger : ℕ) (hints : List PeerHint) (peers : Peers) (found : List PeerHint)
    → (get k peers ≡ some found → 1 ≤ length found)
    → get k (put_kept ledger hints peers) ≡ some found
    → 1 ≤ length found
unfolding get
put_kept-some k ledger [] peers found h e = h e
put_kept-some k ledger (hint ∷ hints) peers found h e = elim (Bool-cases (ledger == k)) [
  | inl same ↦
      let is : hint ∷ hints ≡ found = ground (arith, same, e) in
      subst (λ xs. 1 ≤ length xs) is (omega arith)
  | inr apart ↦ h (ground (arith, apart, e))
]

prune-some :
    (now k : ℕ) (peers : Peers) (found : List PeerHint)
    → get k (prune now peers) ≡ some found
    → 1 ≤ length found
unfolding prune get
prune-some now k [] found e = absurd cc
prune-some now k ((ledger, hints) ∷ peers) found e =
    put_kept-some k ledger (keep (recent now) hints) (prune now peers) found
      (prune-some now k peers found) e

-- Pruning leaves every ledger that stays in the map with at least one hint and at most eight, of
-- distinct endpoints.
pub prune-IsTidyPeers :
    (now : ℕ) (peers : Peers) → IsTidyPeers peers → IsTidyPeers (prune now peers)
prune-IsTidyPeers now peers h = record {
  ordered = prune-IsOrdered now peers h.ordered;
  tidy = λ ledger hints e.
      let held = or_default (get ledger peers) in
      let is : hints ≡ keep (recent now) held =
        ap or_default (sym e) ∙ get-prune now ledger peers h.ordered in
      let less = keep-Shrinks (recent now) held in
      let some_hint = prune-some now ledger peers hints e in
      let small = or_default-length ledger peers h in
      (
        subst IsDistinct (sym is) (less.1 (or_default-IsDistinct ledger peers h)),
        some_hint,
        subst (λ xs. length xs ≤ 8) (sym is) (omega (arith, less.2, small)),
      );
}
