-- ===== src/Fold/Runs.antt =====
-- The fold of crates/mabel-core/src/fold.rs as a relation: a run of accepted events, and what the
-- fold reports of a sequence.
use mabel.Base.{◌≡◌, inl, inr, Option, none, some, List, [], ◌∷◌, ◌++◌, refl, ap}
use mathlib.Core.Path.{subst}
use mabel.Base.Bytes.{Bytes}
use mabel.Crypto.{Crypto}
use mabel.Fold.Reason.{Violation, Outcome, ok, err, panic}
use mabel.Fold.State.{LedgerState, empty, next_seq}
use mabel.Fold.Apply.{Gate, apply, fold_from, fold}
use mabel.Fold.Sound.{IsWellFormed}
use mabel.Fold.Invariant.{apply-IsLive}

abbrev or_pair : {A : Type 0} → A → Option A → A
or_pair a none = a
or_pair a (some b) = b

module _ (c : Crypto) (g : Gate) where
  -- Every event of the list is accepted, one after the other.
  pub data Run : LedgerState → List Bytes → LedgerState → Type 0 where
    done : {s : LedgerState} → Run s [] s
    next :
        {s u t : LedgerState} {event : Bytes} {events : List Bytes}
        → apply c g s event ≡ ok u
        → Run u events t
        → Run s (event ∷ events) t

  -- What the fold reports: all events accepted, or an accepted prefix and the first event that
  -- is not.
  pub record Stops (s : LedgerState) (events : List Bytes) (t : LedgerState) (v : Violation)
      : Type 0 where
    pub accepted : List Bytes
    pub bad : Bytes
    pub rest : List Bytes
    pub split : events ≡ accepted ++ bad ∷ rest
    pub run : Run s accepted t
    pub refused : apply c g t bad ≡ err v.reason
    pub position : v.seq ≡ next_seq t

  abbrev pub Reports : LedgerState → List Bytes → LedgerState → Option Violation → Type 0
  Reports s events t none = Run s events t
  Reports s events t (some v) = Stops s events t v

  -- One more accepted event in front.
  further :
      (event : Bytes) (s u : LedgerState) (events : List Bytes) (t : LedgerState)
      (v : Option Violation)
      → apply c g s event ≡ ok u
      → Reports u events t v
      → Reports s (event ∷ events) t v
  further event s u events t none e r = next e r
  further event s u events t (some v) e r = record {
    accepted = event ∷ r.accepted;
    bad = r.bad;
    rest = r.rest;
    split = ap (λ es. event ∷ es) r.split;
    run = next e r.run;
    refused = r.refused;
    position = r.position;
  }

  -- When a fold from a state returns, it reports its events: with no violation, all of them are
  -- accepted one after the other, up to the state that it returns; with one, the state is reached
  -- by a prefix that is accepted, the next event is refused there for the reason of the violation,
  -- and the violation has the position after the state.
  pub fold_from-Reports :
      (s : LedgerState) (events : List Bytes) (t : LedgerState) (v : Option Violation)
      → fold_from c g s events ≡ some (t, v)
      → Reports s events t v
  unfolding fold_from
  fold_from-Reports s [] t v h =
      subst (λ (r : LedgerState × Option Violation). Reports s [] r.0 r.1)
        (ap (or_pair (s, none)) h) done
  fold_from-Reports s (event ∷ events) t v h =
      go (apply c g s event) refl h (λ u w f. fold_from-Reports u events t w f)
    where
      go :
          (o : Outcome LedgerState)
          → apply c g s event ≡ o
          → (elim o [
            | ok u ↦ fold_from c g u events
            | err reason ↦ some (s, some (record { seq = next_seq s; reason = reason }))
            | panic ↦ none
          ])
            ≡ some (t, v)
          → ((u : LedgerState) (w : Option Violation)
              → fold_from c g u events ≡ some (t, w)
              → Reports u events t w)
          → Reports s (event ∷ events) t v
      go (ok u) e f ih = further event s u events t v e (ih u v f)
      go (err r) e f ih =
          subst (λ (r : LedgerState × Option Violation). Reports s (event ∷ events) r.0 r.1)
            (ap (or_pair (s, none)) f)
            (record {
              accepted = [];
              bad = event;
              rest = events;
              split = refl;
              run = done;
              refused = e;
              position = refl;
            })
      go panic e f ih = cc

  -- A run keeps the invariant.
  pub Run-IsWellFormed :
      {s t : LedgerState} {events : List Bytes} → Run s events t → IsWellFormed s → IsWellFormed t
  Run-IsWellFormed done w = w
  Run-IsWellFormed (next {s = s} {u = u} {event = event} e r) w =
      Run-IsWellFormed r (inr (apply-IsLive c g event s u w e))

  -- A report's state is reached by a run of accepted events.
  Reports-IsWellFormed :
      (s : LedgerState) (events : List Bytes) (t : LedgerState) (v : Option Violation)
      → Reports s events t v
      → IsWellFormed s
      → IsWellFormed t
  Reports-IsWellFormed s events t none r w = Run-IsWellFormed r w
  Reports-IsWellFormed s events t (some v) r w = Run-IsWellFormed r.run w

  -- When a fold returns, with or without a violation and whatever the bytes are, its state is the
  -- empty one or a live ledger: it has a head, an id and a root, its maps are ordered by key, some
  -- principal is a controller, no key is held twice, a raw root holds its place, an invitee has at
  -- most one open invitation and a principal that has one holds its key, a subject has at most one
  -- unrevoked attestation, and none is of the ledger itself.
  pub fold-IsWellFormed :
      (events : List Bytes) (t : LedgerState) (v : Option Violation)
      → fold c g events ≡ some (t, v)
      → IsWellFormed t
  unfolding fold
  fold-IsWellFormed events t v h =
      Reports-IsWellFormed empty events t v (fold_from-Reports empty events t v h) (inl refl)
