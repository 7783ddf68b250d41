-- ===== src/Validate/Schema.antt =====
-- The registered message types of crates/mabel-core/src/validate.rs, with the caps of
-- crates/mabel-core/src/lib.rs.
use mabel.Base.{ℕ, ◌-◌, ◌^◌, true, Option, none, some, [], ◌∷◌, String}
use mabel.Crypto.{id_bytes, sig_bytes, nonce_bytes}
use mabel.Validate.Descriptor.{
  Cardinality, StringRule, CrossFieldCheck, FieldKind, FieldDescriptor, Fields, MessageDescriptor,
}

abbrev pub max_timestamp_ms : ℕ
max_timestamp_ms = 4102444800000

abbrev pub max_event_bytes : ℕ
max_event_bytes = 4096

abbrev pub max_embedded_inception_bytes : ℕ
max_embedded_inception_bytes = 1024

abbrev pub max_acceptance_bytes : ℕ
max_acceptance_bytes = 1024

abbrev pub max_witnesses : ℕ
max_witnesses = 16

abbrev pub max_endpoints : ℕ
max_endpoints = 8

abbrev pub inception_tag : ℕ
inception_tag = 10

abbrev pub trust_attestation_tag : ℕ
trust_attestation_tag = 12

abbrev pub membership_invitation_tag : ℕ
membership_invitation_tag = 14

abbrev pub raw_root_tag : ℕ
raw_root_tag = 10

abbrev pub identity_root_tag : ℕ
identity_root_tag = 11

abbrev forbidden : ℕ → String → FieldKind → FieldDescriptor
forbidden number name = FieldDescriptor.field_descriptor number name Cardinality.forbidden

abbrev optional : ℕ → String → FieldKind → FieldDescriptor
optional number name = FieldDescriptor.field_descriptor number name Cardinality.optional

abbrev required : ℕ → String → FieldKind → FieldDescriptor
required number name = FieldDescriptor.field_descriptor number name Cardinality.required

abbrev variant : ℕ → String → MessageDescriptor → FieldDescriptor
variant number name d =
    FieldDescriptor.field_descriptor number name Cardinality.variant (FieldKind.message d)

abbrev repeated : ℕ → String → ℕ → ℕ → FieldKind → FieldDescriptor
repeated number name min max =
    FieldDescriptor.field_descriptor number name (Cardinality.repeated min max true)

abbrev id : FieldKind
id = FieldKind.bytes (some id_bytes) id_bytes

abbrev sig : FieldKind
sig = FieldKind.bytes (some sig_bytes) sig_bytes

abbrev nonce : FieldKind
nonce = FieldKind.bytes (some nonce_bytes) nonce_bytes

abbrev embedded_inception : FieldKind
embedded_inception = FieldKind.bytes none max_embedded_inception_bytes

abbrev version : FieldKind
version = FieldKind.varint 1 (2 ^ 32 - 1)

abbrev declared_kind : FieldKind
declared_kind = FieldKind.enum (
    record { number = 1; name = "PERSON" }
    ∷ record { number = 2; name = "ORGANIZATION" }
    ∷ record { number = 3; name = "AGENT" }
    ∷ record { number = 4; name = "SERVICE" }
    ∷ [])

abbrev role : FieldKind
role =
    FieldKind.enum
      (record { number = 1; name = "MEMBER" } ∷ record { number = 2; name = "CONTROLLER" } ∷ [])

infixr 20 ◌then_field◌
abbrev ◌then_field◌ : FieldDescriptor → Fields → Fields
f then_field fs = Fields.and f fs

-- A message with no `oneof`.
abbrev plain : String → ℕ → Fields → Option CrossFieldCheck → MessageDescriptor
plain name max_bytes fields check =
    MessageDescriptor.message_descriptor name max_bytes fields none check

abbrev pub raw_root : MessageDescriptor
raw_root =
    plain "RawRoot" max_event_bytes
      (required 1 "active_key" id then_field required 2 "reserve_commit" id then_field Fields.end)
      (some CrossFieldCheck.check_raw_root)

abbrev pub identity_root : MessageDescriptor
identity_root =
    plain "IdentityRoot" max_event_bytes
      (required 1 "founder" id
        then_field required 2 "founder_key" id
        then_field required 3 "founder_inception" embedded_inception
        then_field Fields.end)
      (some CrossFieldCheck.check_identity_root)

abbrev pub inception : MessageDescriptor
inception =
    MessageDescriptor.message_descriptor "Inception" max_event_bytes
      (required 1 "kind" declared_kind
        then_field required 2 "nonce" nonce
        then_field variant raw_root_tag "raw_root" raw_root
        then_field variant identity_root_tag "identity_root" identity_root
        then_field Fields.end)
      (some (record { name = "root"; first_number = raw_root_tag })) none

abbrev pub witness_config : MessageDescriptor
witness_config =
    plain "WitnessConfig" max_event_bytes
      (repeated 1 "witnesses" 1 max_witnesses id then_field Fields.end) none

abbrev pub endpoint_advertisement : MessageDescriptor
endpoint_advertisement =
    plain "EndpointAdvertisement" max_event_bytes
      (repeated 1 "endpoints" 0 max_endpoints id then_field Fields.end) none

abbrev pub witness_set : MessageDescriptor
witness_set =
    plain "WitnessSet" max_event_bytes
      (repeated 1 "witnesses" 0 max_witnesses id then_field Fields.end) none

abbrev pub trust_attestation : MessageDescriptor
trust_attestation =
    plain "TrustAttestation" max_event_bytes (required 1 "subject" id then_field Fields.end) none

abbrev pub trust_revocation : MessageDescriptor
trust_revocation =
    plain "TrustRevocation" max_event_bytes (required 1 "target" id then_field Fields.end) none

abbrev pub membership_invitation : MessageDescriptor
membership_invitation =
    plain "MembershipInvitation" max_event_bytes
      (required 1 "invitee" id
        then_field required 2 "invitee_key" id
        then_field required 3 "role" role
        then_field required 4 "invitee_inception" embedded_inception
        then_field Fields.end)
      (some CrossFieldCheck.check_membership_invitation)

abbrev pub acceptance : MessageDescriptor
acceptance =
    plain "Acceptance" max_acceptance_bytes
      (forbidden 1 "version" version
        then_field required 2 "ledger" id
        then_field required 3 "invitation_event" id
        then_field required 4 "invitee" id
        then_field required 5 "invitee_key" id
        then_field Fields.end)
      none

abbrev pub membership_acceptance : MessageDescriptor
membership_acceptance =
    plain "MembershipAcceptance" max_event_bytes
      (required 1 "acceptance" (FieldKind.nested acceptance max_acceptance_bytes)
        then_field required 2 "signature" sig
        then_field Fields.end)
      (some CrossFieldCheck.check_membership_acceptance)

abbrev pub membership_removal : MessageDescriptor
membership_removal =
    plain "MembershipRemoval" max_event_bytes (required 1 "target" id then_field Fields.end) none

abbrev pub profile_update : MessageDescriptor
profile_update =
    plain "ProfileUpdate" max_event_bytes
      (optional 1 "display_name" (FieldKind.string 64 StringRule.display_name)
        then_field optional 2 "hostname" (FieldKind.string 246 StringRule.hostname)
        then_field optional 3 "email" (FieldKind.string 254 StringRule.email)
        then_field Fields.end)
      none

abbrev pub event_body : MessageDescriptor
event_body =
    MessageDescriptor.message_descriptor "EventBody" max_event_bytes
      (forbidden 1 "version" version
        then_field optional 2 "ledger" id
        then_field optional 3 "seq" (FieldKind.varint 1 (2 ^ 64 - 1))
        then_field optional 4 "prev" id
        then_field required 5 "timestamp_ms" (FieldKind.varint 1 max_timestamp_ms)
        then_field required 6 "author_key" id
        then_field variant inception_tag "inception" inception
        then_field variant 11 "witness_config" witness_config
        then_field variant trust_attestation_tag "trust_attestation" trust_attestation
        then_field variant 13 "trust_revocation" trust_revocation
        then_field variant membership_invitation_tag "membership_invitation" membership_invitation
        then_field variant 15 "membership_acceptance" membership_acceptance
        then_field variant 16 "membership_removal" membership_removal
        then_field variant 17 "profile_update" profile_update
        then_field variant 18 "endpoint_advertisement" endpoint_advertisement
        then_field variant 19 "witness_set" witness_set
        then_field Fields.end)
      (some (record { name = "payload"; first_number = inception_tag }))
      (some CrossFieldCheck.check_event_body)

abbrev pub signed_event : MessageDescriptor
signed_event =
    plain "SignedEvent" max_event_bytes
      (required 1 "body" (FieldKind.nested event_body max_event_bytes)
        then_field required 2 "signature" sig
        then_field Fields.end)
      none
