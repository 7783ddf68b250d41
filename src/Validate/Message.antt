-- ===== src/Validate/Message.antt =====
-- The cross-field rules of crates/mabel-core/src/validate.rs, the standalone check of an embedded
-- inception, `validate` and its entry points.
use mabel.Base.{
  ℕ, zero, suc, ◌+◌, Bool, true, false, not, ◌&&◌, Option, none, some, String, ◌==◌, ltb, is_some,
  if◌then◌else◌,
}
use mabel.Base.Bytes.{Bytes, length}
use mabel.Crypto.{Crypto, from_slice, sig_bytes, event_id, sign_input, accept_input}
use mabel.Validate.Error.{WireError, Result, ok, spent, ◌>>=◌, ◌>>◌, reject_if, expect, ok_or}
use mabel.Validate.Descriptor.{
  CrossFieldCheck, MessageDescriptor, message_name, max_bytes_of, check_of,
}
use mabel.Validate.Schema
use mabel.Validate.Schema.{
  inception_tag, trust_attestation_tag, membership_invitation_tag, raw_root_tag,
}
use mabel.Validate.Values.{Scanned}
use mabel.Validate.Scan.{varint_of, bytes_of, oneof, scan}
use mabel.Validate.Cardinality.{bytes_eq, check_cardinality}

-- Equality of optional byte strings.
abbrev pub option_eq : Option Bytes → Option Bytes → Bool
option_eq none none = true
option_eq (some a) (some b) = bytes_eq a b
option_eq _ _ = false

-- Whether the bytes are the 32 bytes of the id or key.
abbrev pub is_id : Option ℕ → ℕ → Bool
is_id none id = false
is_id (some n) id = n == id

abbrev slice_of : Option Bytes → Option ℕ
slice_of none = none
slice_of (some b) = from_slice b

pub record StandaloneInception : Type 0 where
  pub event_id : ℕ
  pub identity : ℕ
  pub active_key : ℕ

-- `ledger` and `prev` are absent at seq 0, which is encoded by the absence of `seq`.
unfoldable pub check_links : Option ℕ → (ledger prev : Option Bytes) → Result (Unit {0})
check_links none ledger prev = do
  reject_if (is_some ledger) (WireError.set_at_seq_zero "ledger")
  reject_if (is_some prev) (WireError.set_at_seq_zero "prev")
check_links (some seq) ledger prev = do
  reject_if (not (is_some ledger)) (WireError.missing_chain_field "ledger")
  reject_if (not (is_some prev)) (WireError.missing_chain_field "prev")

unfoldable pub check_raw_root : Scanned → Result (Unit {0})
check_raw_root s =
    reject_if (option_eq (bytes_of s 1) (bytes_of s 2))
      (WireError.fields_must_differ "RawRoot.active_key" "RawRoot.reserve_commit")

module _ (c : Crypto) where
  unfoldable pub public_key : (message field : String) → Bytes → Result ℕ
  public_key message field input = do
    key ← ok_or (from_slice input) (WireError.invalid_public_key message field)
    reject_if (not (c.is_point key)) (WireError.invalid_public_key message field)
    ok key

  unfoldable pub verify :
      ℕ → (input signature : Bytes) → (message field : String) → Result (Unit {0})
  verify key input signature message field = do
    reject_if (not (length signature == sig_bytes))
        (WireError.wrong_length message field sig_bytes (length signature))
    reject_if (not (c.verify key input signature)) (WireError.bad_signature message field)

-- `rec` validates a message at a depth, and `scan` runs on it.
module _ (c : Crypto) (rec : MessageDescriptor → Bytes → ℕ → Result Scanned) where
  unfoldable pub detached_acceptance : (blob signature : Bytes) → String → Result (Unit {0})
  unfolding public_key verify
  detached_acceptance blob signature message = do
    fields ← scan c rec Schema.acceptance blob 0
    bytes ← expect (bytes_of fields 5)
    invitee_key ← public_key c "Acceptance" "invitee_key" bytes
    verify c invitee_key (accept_input c blob) signature message "signature"

  -- `Scanned::subfields`.
  unfoldable pub subfields : Scanned → MessageDescriptor → Bytes → Result Scanned
  subfields s d input = scan c rec d input (s.depth + 1)

  unfoldable pub inception_standalone : Bytes → ℕ → Result StandaloneInception
  unfolding public_key verify
  inception_standalone input depth = do
    signed ← rec Schema.signed_event input depth
    body ← expect (bytes_of signed 1)
    signature ← expect (bytes_of signed 2)
    body_fields ← scan c rec Schema.event_body body (depth + 1)
    (number, payload) ← expect (oneof body_fields)
    reject_if (not (number == inception_tag)) WireError.embedded_inception_not_raw_rooted
    inception ← scan c rec Schema.inception payload (depth + 2)
    (root_number, root) ← expect (oneof inception)
    reject_if (not (root_number == raw_root_tag)) WireError.embedded_inception_not_raw_rooted
    raw_root ← scan c rec Schema.raw_root root (depth + 3)
    key_bytes ← expect (bytes_of raw_root 1)
    active_key ← public_key c "RawRoot" "active_key" key_bytes
    verify c active_key (sign_input c body) signature "SignedEvent" "signature"
    ok (record { event_id = event_id c body; identity = event_id c body; active_key = active_key })

  unfoldable pub check_embedded_inception :
      Scanned
      → (inception_field id_field : ℕ) → String
      → (key_field : ℕ) → String
      → Result (Unit {0})
  unfolding inception_standalone
  check_embedded_inception s inception_field id_field id_name key_field key_name = do
    embedded ← expect (bytes_of s inception_field)
    inception ← inception_standalone embedded (s.depth + 1)
    reject_if (not (is_id (slice_of (bytes_of s id_field)) inception.event_id))
        (WireError.inception_id_mismatch id_name)
    reject_if (not (is_id (slice_of (bytes_of s key_field)) inception.active_key))
        (WireError.inception_key_mismatch key_name)

  -- Seq 0 authorizes itself under its root.
  unfoldable pub check_own_root : Scanned → Bytes → Bytes → Result (Unit {0})
  unfolding subfields
  check_own_root s payload author_key = do
    inception ← subfields s Schema.inception payload
    (root_number, root_bytes) ← expect (oneof inception)
    if root_number == raw_root_tag
        then (do
          root ← subfields inception Schema.raw_root root_bytes
          reject_if (not (option_eq (bytes_of root 1) (some author_key)))
              (WireError.fields_must_match "EventBody.author_key" "RawRoot.active_key"))
        else (do
          root ← subfields inception Schema.identity_root root_bytes
          reject_if (not (option_eq (bytes_of root 2) (some author_key)))
              (WireError.fields_must_match "EventBody.author_key" "IdentityRoot.founder_key"))

  -- The first field of the payload differs from `EventBody.ledger`.
  unfoldable pub check_not_ledger :
      Scanned → MessageDescriptor → Bytes → Option Bytes → String → Result (Unit {0})
  unfolding subfields
  check_not_ledger s d payload ledger name = do
    fields ← subfields s d payload
    reject_if (is_some ledger && option_eq (bytes_of fields 1) ledger)
        (WireError.fields_must_differ name "EventBody.ledger")

  unfoldable pub check_event_body : Scanned → Result (Unit {0})
  unfolding check_links check_own_root check_not_ledger
  check_event_body s = do
    let seq = varint_of s 3
    let ledger = bytes_of s 2
    check_links seq ledger (bytes_of s 4)
    (number, payload) ← expect (oneof s)
    let is_inception = number == inception_tag
    reject_if (is_inception && is_some seq) WireError.inception_past_seq_zero
    reject_if (not is_inception && not (is_some seq)) WireError.non_inception_at_seq_zero
    author_key ← expect (bytes_of s 6)
    if is_inception
        then check_own_root s payload author_key
        else if number == trust_attestation_tag
        then check_not_ledger s Schema.trust_attestation payload ledger "TrustAttestation.subject"
        else if number == membership_invitation_tag
        then check_not_ledger s Schema.membership_invitation payload ledger
            "MembershipInvitation.invitee"
        else ok tt

  unfoldable pub cross_check : Option CrossFieldCheck → Scanned → Result (Unit {0})
  unfolding check_raw_root check_embedded_inception check_event_body detached_acceptance
  cross_check none s = ok tt
  cross_check (some CrossFieldCheck.check_raw_root) s = check_raw_root s
  cross_check (some CrossFieldCheck.check_identity_root) s =
      check_embedded_inception s 3 1 "IdentityRoot.founder" 2 "IdentityRoot.founder_key"
  cross_check (some CrossFieldCheck.check_membership_invitation) s =
      check_embedded_inception s 4 1 "MembershipInvitation.invitee" 2
        "MembershipInvitation.invitee_key"
  cross_check (some CrossFieldCheck.check_membership_acceptance) s = do
    blob ← expect (bytes_of s 1)
    signature ← expect (bytes_of s 2)
    detached_acceptance blob signature "MembershipAcceptance"
  cross_check (some CrossFieldCheck.check_event_body) s = check_event_body s

  -- The body of `validate`.
  unfoldable pub validate_with : MessageDescriptor → Bytes → ℕ → Result Scanned
  unfolding check_cardinality cross_check
  validate_with d input depth = do
    reject_if (ltb (max_bytes_of d) (length input))
        (WireError.message_too_large (message_name d) (length input) (max_bytes_of d))
    scanned ← scan c rec d input depth
    check_cardinality scanned
    cross_check (check_of d) scanned
    ok scanned

module _ (c : Crypto) where
  -- `validate`, on fuel: a message inside another is shorter than it.
  unfoldable pub validate : ℕ → MessageDescriptor → Bytes → ℕ → Result Scanned
  validate zero d input depth = spent
  validate (suc fuel) d input depth = validate_with c (validate fuel) d input depth

  -- One more than the length is enough fuel.
  unfoldable pub message_fields : MessageDescriptor → Bytes → Result Scanned
  message_fields d input = validate (suc (length input)) d input 0

  unfoldable pub message : MessageDescriptor → Bytes → Result (Unit {0})
  unfolding message_fields
  message d input = do _ ← message_fields d input; ok tt

  unfoldable pub signed_event : Bytes → Result (Unit {0})
  unfolding message
  signed_event input = message Schema.signed_event input

  unfoldable pub event_body : Bytes → Result (Unit {0})
  unfolding message
  event_body input = message Schema.event_body input

  unfoldable pub acceptance : Bytes → Result (Unit {0})
  unfolding message
  acceptance input = message Schema.acceptance input

  unfoldable pub verify_inception_standalone : Bytes → Result StandaloneInception
  unfolding inception_standalone
  verify_inception_standalone input = inception_standalone c (validate (suc (length input))) input 0
