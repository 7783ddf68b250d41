-- ===== src/Fold/Apply.antt =====
-- `LedgerState::apply` and `fold` of crates/mabel-core/src/fold.rs.
use mabel.Base.{
  ℕ, Bool, true, false, not, Option, none, some, List, [], ◌∷◌, String, ◌==◌, ltb, if◌then◌else◌,
}
use mabel.Base.Bytes.{Bytes, length}
use mabel.Proto
use mabel.Proto.{Payload}
use mabel.Crypto.{Crypto, from_slice, sig_bytes, event_id, sign_input}
use mabel.Validate.Error.{Result}
use mabel.Fold.Reason.{
  Reason, Violation, Outcome, ok, err, panic, ◌>>=◌, ◌>>◌, reject_if, expect, ok_or,
}
use mabel.Fold.State.{Head, SigningPrincipal, LedgerState, empty, next_seq, signing_principal}
use mabel.Fold.Effect.{Effect, commit}
use mabel.Fold.Checks.{
  identity, identities, public_key, public_keys, set_name, seed_from_inception, check_attestation,
  check_revocation, check_invitation, check_acceptance, check_removal,
}

-- What the fold calls before its own rules: the stateless gate of validate.rs, and the decoders
-- that prost generates from ledger.proto.
pub record Gate : Type 0 where
  pub signed_event : Bytes → Result (Unit {0})
  pub decode_signed_event : Bytes → Option Proto.SignedEvent
  pub decode_event_body : Bytes → Option Proto.EventBody
  pub decode_acceptance : Bytes → Option Proto.Acceptance

-- `validate::signed_event(event)?`.
unfoldable pub pass : Result (Unit {0}) → Outcome (Unit {0})
pass (Result.ok _) = ok tt
pass (Result.err e) = err (Reason.wire e)
pass Result.panic = panic
pass Result.spent = panic

unfoldable pub payload_name : Payload → String
payload_name (Payload.inception _) = "Inception"
payload_name (Payload.witness_config _) = "WitnessConfig"
payload_name (Payload.trust_attestation _) = "TrustAttestation"
payload_name (Payload.trust_revocation _) = "TrustRevocation"
payload_name (Payload.membership_invitation _) = "MembershipInvitation"
payload_name (Payload.membership_acceptance _) = "MembershipAcceptance"
payload_name (Payload.membership_removal _) = "MembershipRemoval"
payload_name (Payload.profile_update _) = "ProfileUpdate"
payload_name (Payload.endpoint_advertisement _) = "EndpointAdvertisement"
payload_name (Payload.witness_set _) = "WitnessSet"

abbrev pub is_inception : Payload → Bool
is_inception (Payload.inception _) = true
is_inception _ = false

abbrev pub same : Bool → Bool → Bool
same true b = b
same false b = not b

-- Seq 0 holds an inception and nothing else does.
unfoldable pub check_position : ℕ → Payload → Outcome (Unit {0})
check_position seq payload =
    reject_if (not (same (is_inception payload) (seq == 0)))
      (Reason.payload_not_allowed seq (payload_name payload))

-- The rules that need a previous event: the ledger, the link and the timestamp.
unfoldable pub check_chain : Option ℕ → Proto.EventBody → Option Head → Outcome (Unit {0})
unfolding identity
check_chain this body none = ok tt
check_chain this body (some head) = do
  ledger ← identity body.ledger
  expected ← expect this
  reject_if (not (ledger == expected)) (Reason.wrong_ledger expected ledger)
  prev ← expect (from_slice body.prev)
  reject_if (not (prev == head.event_id)) (Reason.broken_prev_link head.event_id prev)
  reject_if (ltb body.timestamp_ms head.timestamp_ms)
      (Reason.backwards_timestamp head.timestamp_ms body.timestamp_ms)

-- Seq 0 is authorized by its own root, any other event by a principal of the state before it.
unfoldable pub check_signer : LedgerState → ℕ → ℕ → Outcome (Option SigningPrincipal)
check_signer s seq author_key = if seq == 0 then ok none else do
  signer ← ok_or (signing_principal s author_key) (Reason.unauthorized_signer author_key)
  ok (some signer)

module _ (c : Crypto) where
  unfoldable pub verify : ℕ → Bytes → Bytes → Outcome (Unit {0})
  verify key input signature =
      if length signature == sig_bytes
      then (if c.verify key input signature then ok tt else err Reason.bad_signature)
      else panic

module _ (c : Crypto) (g : Gate) where
  -- Returns what to apply; nothing is changed here.
  unfoldable pub check_semantics :
      LedgerState → ℕ → Payload → Option SigningPrincipal → Outcome Effect
  check_semantics s id (Payload.inception inception) signer = seed_from_inception c id inception
  check_semantics s id (Payload.witness_config config) signer = do
    keys ← public_keys c config.witnesses "WitnessConfig.witnesses"
    ok (Effect.witness_endpoints keys)
  check_semantics s id (Payload.witness_set set) signer = do
    witnesses ← identities set.witnesses
    principal ← expect signer
    ok (Effect.witness_set witnesses principal)
  check_semantics s id (Payload.endpoint_advertisement advertisement) signer = do
    keys ← public_keys c advertisement.endpoints "EndpointAdvertisement.endpoints"
    principal ← expect signer
    ok (Effect.endpoints keys principal)
  check_semantics s id (Payload.trust_attestation attestation) signer = do
    subject ← identity attestation.subject
    check_attestation s subject signer
  check_semantics s id (Payload.trust_revocation revocation) signer = do
    target ← expect (from_slice revocation.target)
    check_revocation s target
  check_semantics s id (Payload.membership_invitation invitation) signer =
      check_invitation c s invitation
  check_semantics s id (Payload.membership_acceptance acceptance) signer = do
    blob ← expect (g.decode_acceptance acceptance.acceptance)
    check_acceptance c s blob
  check_semantics s id (Payload.membership_removal removal) signer = do
    target ← identity removal.target
    check_removal s target
  check_semantics s id (Payload.profile_update profile) signer = do
    principal ← expect signer
    ok (
        Effect.set_profile (set_name profile.display_name) (set_name profile.hostname)
          (set_name profile.email) principal)

  -- Checks one received `SignedEvent` against the state, and applies it if every check passes.
  unfoldable pub apply : LedgerState → Bytes → Outcome LedgerState
  apply s event = do
    pass (g.signed_event event)
    signed ← expect (g.decode_signed_event event)
    body ← expect (g.decode_event_body signed.body)
    payload ← expect body.payload
    let seq = next_seq s
    let id = event_id c signed.body
    reject_if (not (body.seq == seq)) (Reason.wrong_seq seq body.seq)
    check_chain s.ledger body s.head
    check_position seq payload
    author_key ← public_key c body.author_key "EventBody.author_key"
    signer ← check_signer s seq author_key
    verify c author_key (sign_input c signed.body) signed.signature
    effect ← check_semantics s id payload signer
    commit seq id body.timestamp_ms effect s

  -- The fold from a state: the state of the valid prefix, and the first violation if there is
  -- one. `none` where an event panics.
  unfoldable pub fold_from : LedgerState → List Bytes → Option (LedgerState × Option Violation)
  fold_from s [] = some (s, none)
  fold_from s (event ∷ events) = elim (apply s event) [
    | ok t ↦ fold_from t events
    | err reason ↦ some (s, some (record { seq = next_seq s; reason = reason }))
    | panic ↦ none
  ]

  unfoldable pub fold : List Bytes → Option (LedgerState × Option Violation)
  unfolding fold_from
  fold events = fold_from empty events
