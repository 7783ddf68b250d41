-- ===== src/Node/Peers/Tidy.antt =====
-- What every operation of `Peers`, crates/mabel-node/src/peers.rs, keeps: the cap and the distinct
-- endpoints of each ledger.
use mabel.Base.{
  ℕ, ◌≤◌, Bool, true, false, Option, none, some, List, [], ◌∷◌, ◌++◌, ◌≡◌, refl, ap, sym, ◌∙◌, inl,
  inr, arith, ◌==◌, ltb, Bool-cases, Option-cases, if_both,
}
use mathlib.Core.Path.{subst}
use mabel.Base.Bytes.{length}
use mabel.Base.Map.{get, insert, remove, IsOrdered}
use mabel.Base.MapLaws.{get-insert, get-remove, insert-IsOrdered, remove-IsOrdered}
use mabel.Node.Peers.{
  PeerHint, Peers, served, names, or_default, refresh_in, trim, record_success, behind,
  max_failures, fail_in, one_more, put_failed, record_failure,
}
use mabel.Node.Peers.Hints.{IsDistinct, IsTidy, pushed-IsTidy, refresh_in-IsTidy}

-- The ledgers ascend, and each has a tidy list.
pub record IsTidyPeers (peers : Peers) : Type 0 where
  pub ordered : IsOrdered peers
  pub tidy : (ledger : ℕ) (hints : List PeerHint) → get ledger peers ≡ some hints → IsTidy hints

pub or_default-IsDistinct :
    (ledger : ℕ) (peers : Peers) → IsTidyPeers peers → IsDistinct (or_default (get ledger peers))
or_default-IsDistinct ledger peers h = elim (Option-cases (get ledger peers)) [
  | inl e ↦ subst (λ o. IsDistinct (or_default o)) (sym e) tt
  | inr (hints, e) ↦ subst (λ o. IsDistinct (or_default o)) (sym e) (h.tidy ledger hints e).0
]

insert-IsTidyPeers :
    (ledger : ℕ) (hints : List PeerHint) (peers : Peers)
    → IsTidy hints
    → IsTidyPeers peers
    → IsTidyPeers (insert ledger hints peers)
insert-IsTidyPeers ledger hints peers new h = record {
  ordered = insert-IsOrdered ledger hints peers h.ordered;
  tidy = λ other found e.
      let look = get-insert ledger other hints peers in
      elim (Bool-cases (ledger == other)) [
        | inl same ↦ subst IsTidy (ground (arith, look, same, e)) new
        | inr apart ↦ h.tidy other found (ground (arith, look, apart, e))
      ];
}

-- A list that names an endpoint is not empty.
named-IsTidy :
    (ledger endpoint : ℕ) (peers : Peers)
    → IsTidyPeers peers
    → names endpoint (or_default (get ledger peers)) ≡ true
    → IsTidy (or_default (get ledger peers))
unfolding names
named-IsTidy ledger endpoint peers h named = elim (Option-cases (get ledger peers)) [
  | inl e ↦
      let empty : names endpoint (or_default none) ≡ true =
        subst (λ o. names endpoint (or_default o) ≡ true) e named in
      absurd cc
  | inr (hints, e) ↦ subst (λ o. IsTidy (or_default o)) (sym e) (h.tidy ledger hints e)
]

-- A served endpoint leaves every ledger with at least one hint and at most eight, of distinct
-- endpoints.
pub record_success-IsTidyPeers :
    (ledger endpoint now : ℕ) (peers : Peers)
    → IsTidyPeers peers
    → IsTidyPeers (record_success ledger endpoint now peers)
unfolding record_success
record_success-IsTidyPeers ledger endpoint now peers h =
    let hints = or_default (get ledger peers) in
    let pushed = hints ++ served endpoint now ∷ [] in
    let distinct = or_default-IsDistinct ledger peers h in
    elim (Bool-cases (names endpoint hints)) [
      | inl known ↦
          let tidy =
            refresh_in-IsTidy endpoint now hints (named-IsTidy ledger endpoint peers h known) in
          let put = insert-IsTidyPeers ledger (refresh_in endpoint now hints) peers tidy h in
          rw known put
      | inr new ↦
          let tidy = pushed-IsTidy endpoint now hints distinct new in
          let put = insert-IsTidyPeers ledger (trim (length pushed) pushed) peers tidy h in
          rw new put
    ]

-- What is left of a list names no more, once each where it did so before.
abbrev pub Shrinks : List PeerHint → List PeerHint → Type 0
Shrinks hints hints' =
    ((e : ℕ) → names e hints ≡ false → names e hints' ≡ false)
    × (IsDistinct hints → IsDistinct hints')
    × (length hints' ≤ length hints)

abbrev ShrinksIf : List PeerHint → Option (Bool × List PeerHint) → Type 0
ShrinksIf hints none = Unit
ShrinksIf hints (some (gone, hints')) = Shrinks hints hints'

pub Shrinks-cons :
    (hint hint' : PeerHint) (hints hints' : List PeerHint)
    → hint'.endpoint ≡ hint.endpoint
    → Shrinks hints hints'
    → Shrinks (hint ∷ hints) (hint' ∷ hints')
unfolding names
Shrinks-cons hint hint' hints hints' same h = (
  λ e absent. let less = h.0 e in ground (arith, less, same, absent),
  λ d. (ap (λ e. names e hints') same ∙ h.0 hint.endpoint d.0, h.1 d.1),
  omega (arith, h.2),
)

Shrinks-tail : (hint : PeerHint) (hints : List PeerHint) → Shrinks (hint ∷ hints) hints
unfolding names
Shrinks-tail hint hints = (λ e absent. ground (arith, absent), λ d. d.1, omega arith)

Shrinks-refl : (hints : List PeerHint) → Shrinks hints hints
Shrinks-refl hints = (λ e absent. absent, λ d. d, omega arith)

behind-ShrinksIf :
    (hint : PeerHint) (hints : List PeerHint) (rest : Option (Bool × List PeerHint))
    → ShrinksIf hints rest
    → ShrinksIf (hint ∷ hints) (behind hint rest)
behind-ShrinksIf hint hints none h = tt
behind-ShrinksIf hint hints (some (gone, hints')) h = Shrinks-cons hint hint hints hints' refl h

fail_in-ShrinksIf :
    (endpoint : ℕ) (hints : List PeerHint) → ShrinksIf hints (fail_in endpoint hints)
unfolding fail_in
fail_in-ShrinksIf endpoint [] = tt
fail_in-ShrinksIf endpoint (hint ∷ hints) =
    let failed : PeerHint = (record hint { failures = one_more hint.failures }) in
    let stay = Shrinks-cons hint failed hints hints refl (Shrinks-refl hints) in
    let rest =
      behind-ShrinksIf hint hints (fail_in endpoint hints) (fail_in-ShrinksIf endpoint hints) in
    if_both (ShrinksIf (hint ∷ hints)) (hint.endpoint == endpoint)
      (if_both (ShrinksIf (hint ∷ hints)) (ltb (one_more hint.failures) max_failures) stay
        (Shrinks-tail hint hints))
      rest

remove-IsTidyPeers :
    (ledger : ℕ) (peers : Peers) → IsTidyPeers peers → IsTidyPeers (remove ledger peers)
remove-IsTidyPeers ledger peers h = record {
  ordered = remove-IsOrdered ledger peers h.ordered;
  tidy = λ other found e.
      let look = get-remove ledger other peers in
      elim (Bool-cases (ledger == other)) [
        | inl same ↦ absurd (ground (arith, look, same, e))
        | inr apart ↦ h.tidy other found (ground (arith, look, apart, e))
      ];
}

put_failed-IsTidyPeers :
    (ledger : ℕ) (hints : List PeerHint) (failed : Option (Bool × List PeerHint)) (peers : Peers)
    → IsDistinct hints
    → length hints ≤ 8
    → ShrinksIf hints failed
    → IsTidyPeers peers
    → IsTidyPeers (put_failed ledger failed peers).1
unfolding put_failed
put_failed-IsTidyPeers ledger hints none peers d small less h = h
put_failed-IsTidyPeers ledger hints (some (gone, [])) peers d small less h =
    remove-IsTidyPeers ledger peers h
put_failed-IsTidyPeers ledger hints (some (gone, hint ∷ left)) peers d small less h =
    insert-IsTidyPeers ledger (hint ∷ left) peers
      (less.1 d, omega arith, omega (arith, small, less.2)) h

pub or_default-length :
    (ledger : ℕ) (peers : Peers) → IsTidyPeers peers → length (or_default (get ledger peers)) ≤ 8
or_default-length ledger peers h = elim (Option-cases (get ledger peers)) [
  | inl e ↦ subst (λ o. length (or_default o) ≤ 8) (sym e) (omega arith)
  | inr (hints, e) ↦ subst (λ o. length (or_default o) ≤ 8) (sym e) (h.tidy ledger hints e).2
]

-- A failure too leaves every ledger in the map with at least one hint and at most eight, of distinct
-- endpoints: a ledger whose last hint goes leaves the map.
pub record_failure-IsTidyPeers :
    (ledger endpoint : ℕ) (peers : Peers)
    → IsTidyPeers peers
    → IsTidyPeers (record_failure ledger endpoint peers).1
unfolding record_failure
record_failure-IsTidyPeers ledger endpoint peers h =
    let hints = or_default (get ledger peers) in
    put_failed-IsTidyPeers ledger hints (fail_in endpoint hints) peers
      (or_default-IsDistinct ledger peers h) (or_default-length ledger peers h)
      (fail_in-ShrinksIf endpoint hints) h
