-- ===== src/Proto.antt =====
-- The messages of proto/mabel/v0/ledger.proto that a ledger is made of, as prost decodes them:
-- an absent scalar is its proto3 default, an absent `oneof` is `none`.
use mabel.Base.{ℕ, Option, none, some, List, if◌then◌else◌, ◌==◌}
use mabel.Base.Bytes.{Bytes}

pub data DeclaredKind : Type 0 where
  kind_unspecified person organization agent service : DeclaredKind

pub data Role : Type 0 where
  role_unspecified member controller : Role

pub record RawRoot : Type 0 where
  pub active_key : Bytes
  pub reserve_commit : Bytes

pub record IdentityRoot : Type 0 where
  pub founder : Bytes
  pub founder_key : Bytes
  pub founder_inception : Bytes

pub data InceptionRoot : Type 0 where
  raw_root : RawRoot → InceptionRoot
  identity_root : IdentityRoot → InceptionRoot

pub record Inception : Type 0 where
  pub kind : ℕ
  pub nonce : Bytes
  pub root : Option InceptionRoot

pub record WitnessConfig : Type 0 where
  pub witnesses : List Bytes

pub record EndpointAdvertisement : Type 0 where
  pub endpoints : List Bytes

pub record WitnessSet : Type 0 where
  pub witnesses : List Bytes

pub record TrustAttestation : Type 0 where
  pub subject : Bytes

pub record TrustRevocation : Type 0 where
  pub target : Bytes

pub record MembershipInvitation : Type 0 where
  pub invitee : Bytes
  pub invitee_key : Bytes
  pub role : ℕ
  pub invitee_inception : Bytes

pub record MembershipAcceptance : Type 0 where
  pub acceptance : Bytes
  pub signature : Bytes

pub record MembershipRemoval : Type 0 where
  pub target : Bytes

pub record ProfileUpdate : Type 0 where
  pub display_name : Bytes
  pub hostname : Bytes
  pub email : Bytes

pub data Payload : Type 0 where
  inception : Inception → Payload
  witness_config : WitnessConfig → Payload
  trust_attestation : TrustAttestation → Payload
  trust_revocation : TrustRevocation → Payload
  membership_invitation : MembershipInvitation → Payload
  membership_acceptance : MembershipAcceptance → Payload
  membership_removal : MembershipRemoval → Payload
  profile_update : ProfileUpdate → Payload
  endpoint_advertisement : EndpointAdvertisement → Payload
  witness_set : WitnessSet → Payload

pub record EventBody : Type 0 where
  pub version : ℕ
  pub ledger : Bytes
  pub seq : ℕ
  pub prev : Bytes
  pub timestamp_ms : ℕ
  pub author_key : Bytes
  pub payload : Option Payload

pub record SignedEvent : Type 0 where
  pub body : Bytes
  pub signature : Bytes

pub record Acceptance : Type 0 where
  pub version : ℕ
  pub ledger : Bytes
  pub invitation_event : Bytes
  pub invitee : Bytes
  pub invitee_key : Bytes

-- `DeclaredKind::try_from`, on the number that the wire carries.
unfoldable pub declared_kind_of : ℕ → Option DeclaredKind
declared_kind_of n =
    if n == 0
    then some DeclaredKind.kind_unspecified
    else if n == 1
    then some DeclaredKind.person
    else if n == 2
    then some DeclaredKind.organization
    else if n == 3
    then some DeclaredKind.agent
    else if n == 4
    then some DeclaredKind.service
    else none

-- `Role::try_from`.
unfoldable pub role_of : ℕ → Option Role
role_of n =
    if n == 0
    then some Role.role_unspecified
    else if n == 1
    then some Role.member
    else if n == 2
    then some Role.controller
    else none
