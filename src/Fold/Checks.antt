-- ===== src/Fold/Checks.antt =====
-- The semantic rules of crates/mabel-core/src/fold.rs: `check_semantics` and what it calls. A check
-- reads the state before the event, and returns what to apply.
use mabel.Base.{
  ℕ, Bool, true, false, not, ◌&&◌, Option, none, some, List, [], ◌∷◌, String, ◌==◌, is_some,
  if◌then◌else◌,
}
use mabel.Base.Bytes.{Bytes}
use mabel.Base.Map.{get, insert, find}
use mabel.Proto
use mabel.Proto.{Role, DeclaredKind, Payload, declared_kind_of, role_of}
use mabel.Crypto.{Crypto, from_slice}
use mabel.Validate.Error.{WireError}
use mabel.Fold.Reason.{
  InvitationStatus, Reason, Outcome, ok, err, ◌>>=◌, ◌>>◌, reject_if, expect, ok_or,
}
use mabel.Fold.State.{
  LedgerRoot, Principal, SigningPrincipal, Invitation, LedgerState, is_controller, is_open,
  unrevoked, open_invitation_of, is_raw_root, controller_keys_without,
}
use mabel.Fold.Effect.{Effect}

-- `EventId::from_slice(bytes).expect(…)` and `fn identity`.
unfoldable pub identity : Bytes → Outcome ℕ
identity bytes = expect (from_slice bytes)

unfoldable pub identities : List Bytes → Outcome (List ℕ)
identities [] = ok []
identities (b ∷ bs) = do i ← identity b; is ← identities bs; ok (i ∷ is)

abbrev is_empty : Bytes → Bool
is_empty [] = true
is_empty (_ ∷ _) = false

-- A decoded empty string is an absent field.
unfoldable pub set_name : Bytes → Option Bytes
set_name value = if is_empty value then none else some value

-- `if let Some((event, _)) = found { return Err(reason) }`.
unfoldable pub refuse_found : {A : Type 0} → Option (ℕ × A) → (ℕ → Reason) → Outcome (Unit {0})
refuse_found none reason = ok tt
refuse_found (some (event, _)) reason = err (reason event)

abbrev is_own : Option ℕ → ℕ → Bool
is_own none k = false
is_own (some j) k = j == k

abbrev pub is_another_with : ℕ → ℕ → ℕ → Principal → Bool
is_another_with key invitee id p = p.active_key == key && not (id == invitee)

unfoldable pub check_attestation : LedgerState → ℕ → Option SigningPrincipal → Outcome Effect
unfolding refuse_found
check_attestation s subject signer = do
  reject_if (is_own s.ledger subject) (Reason.self_attestation subject)
  refuse_found (unrevoked s subject) (Reason.duplicate_attestation subject)
  principal ← expect signer
  ok (Effect.attest subject principal)

abbrev pub unless_revoked : ℕ → Option ℕ → Outcome Effect
unless_revoked target (some revoked_by) = err (Reason.already_revoked target revoked_by)
unless_revoked target none = ok (Effect.revoke target)

unfoldable pub check_revocation : LedgerState → ℕ → Outcome Effect
check_revocation s target = do
  a ← ok_or (get target s.trust) (Reason.unknown_revocation_target target)
  unless_revoked target a.revoked_by

-- A promotion must carry the key that the principal holds.
abbrev check_promotion : ℕ → ℕ → Option Principal → Outcome (Unit {0})
check_promotion invitee key none = ok tt
check_promotion invitee key (some p) =
    reject_if (not (p.active_key == key)) (Reason.principal_key_mismatch invitee p.active_key key)

abbrev pub no_keys : List ℕ → Bool
no_keys [] = true
no_keys (_ ∷ _) = false

unfoldable pub check_demotion : LedgerState → ℕ → Outcome (Unit {0})
check_demotion s target = do
  reject_if (is_raw_root s target) (Reason.root_not_demotable target)
  reject_if (no_keys (controller_keys_without s target)) (Reason.demotes_last_controller target)

abbrev pub is_held_controller : Option Principal → Bool
is_held_controller none = false
is_held_controller (some p) = is_controller p.role

abbrev pub event_of : Option (ℕ × Invitation) → Option ℕ
event_of none = none
event_of (some (event, _)) = some event

unfoldable pub check_removal : LedgerState → ℕ → Outcome Effect
check_removal s target = do
  reject_if (is_raw_root s target) (Reason.root_not_removable target)
  let invitation = event_of (open_invitation_of s target)
  let principal = get target s.principals
  reject_if (not (is_some invitation) && not (is_some principal))
      (Reason.unknown_removal_target target)
  reject_if (is_held_controller principal && no_keys (controller_keys_without s target))
      (Reason.last_controller target)
  ok (Effect.remove_principal target invitation (is_some principal))

-- An acceptance that lowers a controller to a member answers to the rules of a demotion.
unfoldable pub check_lowering : LedgerState → Invitation → Outcome (Unit {0})
unfolding check_demotion
check_lowering s i =
    if is_held_controller (get i.invitee s.principals) && not (is_controller i.role)
    then check_demotion s i.invitee
    else ok tt

module _ (c : Crypto) where
  -- `fn public_key`.
  unfoldable pub public_key : Bytes → String → Outcome ℕ
  public_key bytes field = do
    key ← expect (from_slice bytes)
    if c.is_point key then ok key else err (Reason.invalid_public_key field)

  unfoldable pub public_keys : List Bytes → String → Outcome (List ℕ)
  public_keys [] field = ok []
  public_keys (b ∷ bs) field = do k ← public_key b field; ks ← public_keys bs field; ok (k ∷ ks)

  unfoldable pub seed_root : ℕ → Option Proto.InceptionRoot → Outcome (LedgerRoot × ℕ × ℕ)
  unfolding public_key identity
  seed_root id (some (Proto.InceptionRoot.raw_root r)) = do
    active_key ← public_key r.active_key "RawRoot.active_key"
    reserve_commit ← expect (from_slice r.reserve_commit)
    ok (LedgerRoot.raw active_key reserve_commit, id, active_key)
  seed_root id (some (Proto.InceptionRoot.identity_root r)) = do
    founder ← identity r.founder
    founder_key ← public_key r.founder_key "IdentityRoot.founder_key"
    ok (LedgerRoot.identity founder founder_key, founder, founder_key)
  seed_root id none = err (Reason.wire (WireError.missing_oneof "Inception" "root"))

  unfoldable pub seed_from_inception : ℕ → Proto.Inception → Outcome Effect
  unfolding seed_root
  seed_from_inception id inception = do
    kind ← expect (declared_kind_of inception.kind)
    (root, identity, active_key) ← seed_root id inception.root
    ok (
        Effect.seed kind root
          (insert identity (record { role = Role.controller; active_key = active_key }) []))

  unfoldable pub check_invitation : LedgerState → Proto.MembershipInvitation → Outcome Effect
  unfolding identity public_key refuse_found
  check_invitation s invitation = do
    invitee ← identity invitation.invitee
    key ← public_key invitation.invitee_key "MembershipInvitation.invitee_key"
    role ← expect (role_of invitation.role)
    refuse_found (open_invitation_of s invitee) (Reason.duplicate_invitation invitee)
    check_promotion invitee key (get invitee s.principals)
    ok (
        Effect.invite (record {
          invitee = invitee;
          invitee_key = key;
          role = role;
          status = InvitationStatus.opened;
        }))

  -- The rules on the invitation that the acceptance names, once it is found.
  unfoldable pub check_admission : LedgerState → ℕ → Proto.Acceptance → Invitation → Outcome Effect
  unfolding identity public_key refuse_found check_lowering
  check_admission s event blob i = do
    reject_if (not (is_open i.status)) (Reason.invitation_not_open event i.status)
    named_invitee ← identity blob.invitee
    reject_if (not (named_invitee == i.invitee))
        (Reason.acceptance_invitee_mismatch named_invitee i.invitee)
    named_key ← public_key blob.invitee_key "Acceptance.invitee_key"
    reject_if (not (named_key == i.invitee_key))
        (Reason.acceptance_invitee_key_mismatch named_key i.invitee_key)
    refuse_found (find (is_another_with i.invitee_key i.invitee) s.principals)
        (Reason.duplicate_principal_key i.invitee_key)
    check_lowering s i
    ok (Effect.admit event i.invitee (record { role = i.role; active_key = i.invitee_key }))

  -- On the blob that the acceptance embeds, decoded.
  unfoldable pub check_acceptance : LedgerState → Proto.Acceptance → Outcome Effect
  unfolding identity check_admission
  check_acceptance s blob = do
    ledger ← ok_or s.ledger (Reason.wire WireError.non_inception_at_seq_zero)
    named_ledger ← identity blob.ledger
    reject_if (not (named_ledger == ledger))
        (Reason.acceptance_for_another_ledger named_ledger ledger)
    event ← expect (from_slice blob.invitation_event)
    i ← ok_or (get event s.invitations) (Reason.unknown_invitation event)
    check_admission s event blob i
