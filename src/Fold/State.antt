-- ===== src/Fold/State.antt =====
-- `LedgerState` of crates/mabel-core/src/fold.rs, the records it holds and the questions that it
-- answers. Ids and keys are numbers, the maps are ordered by key.
use mabel.Base.{
  ℕ, ◌+◌, Bool, true, false, ◌&&◌, not, Option, none, some, List, [], ◌∷◌, ◌==◌, is_some,
}
use mabel.Base.{◌++◌, if◌then◌else◌}
use mabel.Base.Bytes.{Bytes}
use mabel.Base.Map.{Map, find}
use mabel.Proto.{Role, DeclaredKind}
use mabel.Fold.Reason.{InvitationStatus}

pub data LedgerRoot : Type 0 where
  raw : (active_key reserve_commit : ℕ) → LedgerRoot
  identity : (founder founder_key : ℕ) → LedgerRoot

unfoldable pub is_raw : LedgerRoot → Bool
is_raw (LedgerRoot.raw _ _) = true
is_raw (LedgerRoot.identity _ _) = false

pub record Head : Type 0 where
  pub seq : ℕ
  pub event_id : ℕ
  pub timestamp_ms : ℕ

pub record Principal : Type 0 where
  pub role : Role
  pub active_key : ℕ

pub record SigningPrincipal : Type 0 where
  pub identity : ℕ
  pub key : ℕ

pub record Invitation : Type 0 where
  pub invitee : ℕ
  pub invitee_key : ℕ
  pub role : Role
  pub status : InvitationStatus

pub record Attestation : Type 0 where
  pub subject : ℕ
  pub signing_principal : SigningPrincipal
  pub revoked_by : Option ℕ

unfoldable pub is_revoked : Attestation → Bool
is_revoked a = is_some a.revoked_by

pub record Profile : Type 0 where
  pub display_name : Option Bytes
  pub hostname : Option Bytes
  pub email : Option Bytes
  pub signing_principal : SigningPrincipal
  pub event : ℕ
  pub seq : ℕ

pub record WitnessSet : Type 0 where
  pub witnesses : List ℕ
  pub signing_principal : SigningPrincipal
  pub event : ℕ
  pub seq : ℕ

pub record EndpointAdvertisement : Type 0 where
  pub endpoints : List ℕ
  pub signing_principal : SigningPrincipal
  pub event : ℕ
  pub seq : ℕ

pub record LedgerState : Type 0 where
  pub declared_kind : Option DeclaredKind
  pub root : Option LedgerRoot
  pub ledger : Option ℕ
  pub head : Option Head
  pub principals : Map Principal
  pub invitations : Map Invitation
  pub witness_endpoints : List ℕ
  pub witness_set : Option WitnessSet
  pub endpoint_advertisement : Option EndpointAdvertisement
  pub trust : Map Attestation
  pub profile : Option Profile

-- `LedgerState::default()`.
abbrev pub empty : LedgerState
empty = record {
  declared_kind = none;
  root = none;
  ledger = none;
  head = none;
  principals = [];
  invitations = [];
  witness_endpoints = [];
  witness_set = none;
  endpoint_advertisement = none;
  trust = [];
  profile = none;
}

-- `role == Role::Controller`.
abbrev pub is_controller : Role → Bool
is_controller Role.controller = true
is_controller _ = false

-- `status == InvitationStatus::Open`.
abbrev pub is_open : InvitationStatus → Bool
is_open InvitationStatus.opened = true
is_open _ = false

abbrev next_after : Option Head → ℕ
next_after none = 0
next_after (some h) = h.seq + 1

unfoldable pub next_seq : LedgerState → ℕ
next_seq s = next_after s.head

abbrev root_identity_of : Option ℕ → Option LedgerRoot → Option ℕ
root_identity_of ledger none = none
root_identity_of ledger (some (LedgerRoot.raw _ _)) = ledger
root_identity_of ledger (some (LedgerRoot.identity founder _)) = some founder

unfoldable pub root_identity : LedgerState → Option ℕ
root_identity s = root_identity_of s.ledger s.root

abbrev pub signs_with : ℕ → ℕ → Principal → Bool
signs_with key id p = is_controller p.role && p.active_key == key

abbrev signs_as : ℕ → Option (ℕ × Principal) → Option SigningPrincipal
signs_as key none = none
signs_as key (some (id, _)) = some (record { identity = id; key = key })

-- The principal that `key` signs as, if any may sign the next event.
unfoldable pub signing_principal : LedgerState → ℕ → Option SigningPrincipal
signing_principal s key = signs_as key (find (signs_with key) s.principals)

unfoldable pub authorized_signer : LedgerState → ℕ → Bool
authorized_signer s key = is_some (signing_principal s key)

-- `keys.contains(&key)`.
unfoldable pub contains : List ℕ → ℕ → Bool
contains [] k = false
contains (x ∷ xs) k = if x == k then true else contains xs k

abbrev pub attests_to : ℕ → ℕ → Attestation → Bool
attests_to subject event a = a.subject == subject && not (is_revoked a)

-- The unrevoked attestation for `subject`, if this ledger has one.
unfoldable pub unrevoked : LedgerState → ℕ → Option (ℕ × Attestation)
unfolding is_revoked
unrevoked s subject = find (attests_to subject) s.trust

unfoldable pub trusts : LedgerState → ℕ → Bool
unfolding unrevoked
trusts s subject = is_some (unrevoked s subject)

abbrev pub invites : ℕ → ℕ → Invitation → Bool
invites invitee event i = i.invitee == invitee && is_open i.status

-- The open invitation naming `invitee`, if the ledger holds one.
unfoldable pub open_invitation_of : LedgerState → ℕ → Option (ℕ × Invitation)
open_invitation_of s invitee = find (invites invitee) s.invitations

abbrev equals : Option ℕ → ℕ → Bool
equals none k = false
equals (some j) k = j == k

abbrev raw_or_none : Option LedgerRoot → Bool
raw_or_none none = false
raw_or_none (some r) = is_raw r

-- Whether `target` is the root principal of a raw-rooted ledger.
unfoldable pub is_raw_root : LedgerState → ℕ → Bool
unfolding is_raw root_identity
is_raw_root s target = raw_or_none s.root && equals (root_identity s) target

-- Pushes the key of a controller that `keep` lets through, unless it is listed already.
unfoldable pub collect_keys : (ℕ → Bool) → Map Principal → List ℕ → List ℕ
unfolding contains
collect_keys keep [] keys = keys
collect_keys keep ((id, p) ∷ m) keys = collect_keys keep m (
    if keep id && (is_controller p.role && not (contains keys p.active_key))
    then keys ++ p.active_key ∷ []
    else keys)

-- Every distinct key that may currently append.
unfoldable pub controller_keys : LedgerState → List ℕ
unfolding collect_keys
controller_keys s = collect_keys (λ _. true) s.principals []

-- Every distinct controller key the ledger would hold if `target` stopped being a controller.
unfoldable pub controller_keys_without : LedgerState → ℕ → List ℕ
unfolding collect_keys
controller_keys_without s target = collect_keys (λ id. not (id == target)) s.principals []
