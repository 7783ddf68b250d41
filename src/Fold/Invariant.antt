-- ===== src/Fold/Invariant.antt =====
-- The invariant of a ledger's state under `apply`, `commit` and `fold` of
-- crates/mabel-core/src/fold.rs.
use mabel.Base.{ℕ, true, ◌≡◌, inl, inr, Option, some, [], ◌∷◌, refl, ◌∙◌, arith}
use mabel.Base.Bytes.{Bytes}
use mabel.Base.Map.{Map, get}
use mabel.Crypto.{Crypto, event_id}
use mabel.Proto.{DeclaredKind}
use mabel.Fold.Reason.{ok, Ensures, Ensures-bind, Ensures-ok}
use mabel.Fold.State.{LedgerRoot, Principal, LedgerState, empty, next_seq}
use mabel.Fold.Effect.{Effect, commit_effect, commit}
use mabel.Fold.Rules.{Allowed, SeedMatches, controller_with, check_semantics-Allowed}
use mabel.Fold.Apply.{Gate, apply}
use mabel.Fold.Shape.{is_seed, check_semantics-IsSeed, check_position-is_inception, next_seq-headed}
use mabel.Fold.Accepted.{Accepted, apply-Accepted}
use mabel.Fold.Principals.{RootHeld}
use mabel.Fold.Sound.{SoundMembers, IsSound, IsLive, IsWellFormed, IsSound-same}
use mabel.Fold.Changes.{commit_effect-IsSound}

-- A first principal set of one controller is sound.
single-SoundMembers :
    (ledger : Option ℕ) (root : Option LedgerRoot) (a key : ℕ)
    → RootHeld ledger root ((a, controller_with key) ∷ [])
    → SoundMembers ledger root ((a, controller_with key) ∷ []) []
unfolding get
single-SoundMembers ledger root a key held = record {
  principals_ordered = (tt, tt);
  invitations_ordered = tt;
  controlled = record {
    who = a;
    principal = controller_with key;
    held = ground arith;
    controls = refl;
    kept = refl;
  };
  distinct_keys = record { at = λ b d p q eb ed same. ground arith };
  root_held = held;
  one_open = record { at = λ e f i j ei ej oi oj same. cc };
  open_keys = record { at = λ e i p ei oi held. cc };
}

seed-SoundMembers :
    (id : ℕ) (root : LedgerRoot) (ps : Map Principal)
    → SeedMatches id root ps
    → SoundMembers (some id) (some root) ps []
unfolding get
seed-SoundMembers id (LedgerRoot.raw key commitment) ps h =
    rw h
      (single-SoundMembers (some id) _ id key (record { at = λ l k d named rooted. ground arith }))
seed-SoundMembers id (LedgerRoot.identity founder key) ps h =
    rw h (single-SoundMembers (some id) _ founder key (record { at = λ l k d named rooted. cc }))

commit_seed-IsSound :
    (seq id : ℕ) (kind : DeclaredKind) (root : LedgerRoot) (ps : Map Principal)
    → SeedMatches id root ps
    → Ensures IsSound (commit_effect seq id (Effect.seed kind root ps) empty)
unfolding commit_effect get
commit_seed-IsSound seq id kind root ps h = Ensures-ok _ (record {
  named = refl;
  rooted = refl;
  members = seed-SoundMembers id root ps h;
  attestations = record {
    ordered = tt;
    one_trust = record { at = λ e f a b ea eb ua ub same. cc };
    no_self = record { at = λ e a ea. cc };
  };
})

-- The head is no part of what `IsSound` speaks of.
commit-IsLive :
    (seq id timestamp_ms : ℕ) (effect : Effect) (s : LedgerState)
    → Ensures IsSound (commit_effect seq id effect s)
    → Ensures IsLive (commit seq id timestamp_ms effect s)
unfolding commit
commit-IsLive seq id timestamp_ms effect s h = Ensures-bind _ _ λ t done.
    Ensures-ok _
      (record { headed = refl; sound = IsSound-same t _ refl refl refl refl refl (h.holds t done) })

commit-IsLive_first :
    (id timestamp_ms : ℕ) (effect : Effect)
    → is_seed effect ≡ true
    → Allowed id empty effect
    → Ensures IsLive (commit 0 id timestamp_ms effect empty)
commit-IsLive_first id timestamp_ms (Effect.seed kind root ps) h a =
    commit-IsLive 0 id timestamp_ms _ empty (commit_seed-IsSound 0 id kind root ps a)
commit-IsLive_first id timestamp_ms _ h a = cc

module _ (c : Crypto) (g : Gate) (event : Bytes) where
  Accepted-IsLive_first : (t : LedgerState) → Accepted c g empty event t → IsLive t
  unfolding next_seq
  Accepted-IsLive_first t a =
      let id = event_id c a.signed.body in
      let seeds =
        (check_semantics-IsSeed c empty g id a.payload a.signer).holds a.effect a.checked in
      let first = check_position-is_inception 0 a.payload a.placed in
      let allowed =
        (check_semantics-Allowed id empty c g a.payload a.signer).holds a.effect a.checked in
      (commit-IsLive_first id a.body.timestamp_ms a.effect (seeds ∙ first) allowed).holds t
        a.committed

  Accepted-IsLive_next : (s t : LedgerState) → Accepted c g s event t → IsLive s → IsLive t
  Accepted-IsLive_next s t a live =
      let id = event_id c a.signed.body in
      let seeds = (check_semantics-IsSeed c s g id a.payload a.signer).holds a.effect a.checked in
      let later =
        check_position-is_inception (next_seq s) a.payload a.placed
        ∙ next_seq-headed s live.headed in
      let allowed =
        (check_semantics-Allowed id s c g a.payload a.signer).holds a.effect a.checked in
      let kept =
        commit_effect-IsSound (next_seq s) id a.effect s (seeds ∙ later) allowed live.sound in
      (commit-IsLive (next_seq s) id a.body.timestamp_ms a.effect s kept).holds t a.committed

  -- On an empty or a live ledger, whatever the bytes, an event that is accepted leaves a live
  -- ledger.
  pub apply-IsLive : (s t : LedgerState) → IsWellFormed s → apply c g s event ≡ ok t → IsLive t
  apply-IsLive s t (inl fresh) h =
      Accepted-IsLive_first t ((apply-Accepted c g empty event).holds t (rw (← fresh) h))
  apply-IsLive s t (inr live) h =
      Accepted-IsLive_next s t ((apply-Accepted c g s event).holds t h) live
