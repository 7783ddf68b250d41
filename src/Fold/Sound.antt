-- ===== src/Fold/Sound.antt =====
-- The invariant of a ledger's state, `LedgerState` of crates/mabel-core/src/fold.rs.
use mabel.Base.{ℕ, true, ◌≡◌, ◌⊎◌, Option, is_some}
use mabel.Base.Map.{Map, IsOrdered}
use mabel.Fold.State.{LedgerRoot, Principal, Invitation, Attestation, LedgerState, empty}
use mabel.Fold.Principals.{DistinctKeys, RootHeld, Controlled}
use mabel.Fold.Invitations.{OneOpen, OpenKeys}
use mabel.Fold.Trust.{OneTrust, NoSelf}

-- The principals and the invitations: ordered maps, some principal a controller, no key held
-- twice, a raw root in place, one open invitation for an invitee.
pub record SoundMembers (ledger : Option ℕ) (root : Option LedgerRoot) (ps : Map Principal)
    (m : Map Invitation) : Type 0 where
  pub principals_ordered : IsOrdered ps
  pub invitations_ordered : IsOrdered m
  pub controlled : Controlled ps
  pub distinct_keys : DistinctKeys ps
  pub root_held : RootHeld ledger root ps
  pub one_open : OneOpen m
  pub open_keys : OpenKeys m ps

-- The attestations: an ordered map, one unrevoked for a subject, none for the ledger itself.
pub record SoundTrust (ledger : Option ℕ) (m : Map Attestation) : Type 0 where
  pub ordered : IsOrdered m
  pub one_trust : OneTrust m
  pub no_self : NoSelf ledger m

pub record IsSound (s : LedgerState) : Type 0 where
  pub named : is_some s.ledger ≡ true
  pub rooted : is_some s.root ≡ true
  pub members : SoundMembers s.ledger s.root s.principals s.invitations
  pub attestations : SoundTrust s.ledger s.trust

-- What holds of every ledger that has an event.
pub record IsLive (s : LedgerState) : Type 0 where
  pub headed : is_some s.head ≡ true
  pub sound : IsSound s

abbrev pub IsWellFormed : LedgerState → Type 0
IsWellFormed s = (s ≡ empty) ⊎ IsLive s

-- The invariant looks at five fields.
pub IsSound-same :
    (s t : LedgerState)
    → t.ledger ≡ s.ledger
    → t.root ≡ s.root
    → t.principals ≡ s.principals
    → t.invitations ≡ s.invitations
    → t.trust ≡ s.trust
    → IsSound s
    → IsSound t
IsSound-same s t ledger root ps invitations trust v = record {
  named = rw ledger v.named;
  rooted = rw root v.rooted;
  members = rw (ledger, root, ps, invitations) v.members;
  attestations = rw (ledger, trust) v.attestations;
}
