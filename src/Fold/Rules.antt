-- ===== src/Fold/Rules.antt =====
-- What the checks of crates/mabel-core/src/fold.rs promise of the effect that they let through,
-- said without the order in which they run.
use mabel.Base.{
  ℕ, Bool, false, not, ◌≡◌, ◌≢◌, ◌&&◌, Option, none, some, [], ◌∷◌, is_some, arith, refl, inl, inr,
  Option-cases,
}
use mabel.Base.Map.{Map, get, find, insert}
use mabel.Proto
use mabel.Proto.{Role, Payload}
use mabel.Crypto.{Crypto}
use mabel.Fold.Reason.{
  Reason, ok_or, reject_if-ok, ok_or-some, InvitationStatus, ok, Ensures, Ensures-bind, Ensures-ok,
}
use mabel.Fold.State.{
  LedgerRoot, Principal, SigningPrincipal, Invitation, Attestation, LedgerState, is_open, unrevoked,
  open_invitation_of, is_raw_root, controller_keys_without,
}
use mabel.Fold.Effect.{Effect}
use mabel.Fold.Checks.{
  check_attestation, check_revocation, check_invitation, check_acceptance, check_admission,
  check_removal, check_lowering, seed_from_inception, is_another_with, is_held_controller, no_keys,
  event_of, refuse_found, unless_revoked, seed_root, set_name,
}
use mabel.Fold.Apply.{Gate, check_semantics}

abbrev pub controller_with : ℕ → Principal
controller_with key = record { role = Role.controller; active_key = key }

-- The first principal set of a ledger is its root principal alone.
abbrev pub SeedMatches : ℕ → LedgerRoot → Map Principal → Type 0
SeedMatches id (LedgerRoot.raw key _) ps = ps ≡ (id, controller_with key) ∷ []
SeedMatches id (LedgerRoot.identity founder key) ps = ps ≡ (founder, controller_with key) ∷ []

pub record MayInvite (s : LedgerState) (i : Invitation) : Type 0 where
  pub none_open : open_invitation_of s i.invitee ≡ none
  pub keeps_key :
      (p : Principal) → get i.invitee s.principals ≡ some p → p.active_key ≡ i.invitee_key
  pub opened : i.status ≡ InvitationStatus.opened

pub record MayAdmit (s : LedgerState) (event invitee : ℕ) (p : Principal) (i : Invitation)
    : Type 0 where
  pub found : get event s.invitations ≡ some i
  pub opened : i.status ≡ InvitationStatus.opened
  pub invited : i.invitee ≡ invitee
  pub role : p.role ≡ i.role
  pub key : p.active_key ≡ i.invitee_key
  pub sole_key : find (is_another_with i.invitee_key i.invitee) s.principals ≡ none
  pub lowering : check_lowering s i ≡ ok tt

pub record MayRemove (s : LedgerState) (target : ℕ) (invitation : Option ℕ) (was : Bool)
    : Type 0 where
  pub not_raw_root : is_raw_root s target ≡ false
  pub cancels : invitation ≡ event_of (open_invitation_of s target)
  pub removes : was ≡ is_some (get target s.principals)
  pub others :
      (is_held_controller (get target s.principals) && no_keys (controller_keys_without s target))
      ≡ false

abbrev pub Allowed : ℕ → LedgerState → Effect → Type 0
Allowed id s (Effect.seed kind root ps) = SeedMatches id root ps
Allowed id s (Effect.attest subject signer) =
    (s.ledger ≢ some subject) × (unrevoked s subject ≡ none)
Allowed id s (Effect.revoke target) =
    (a : Attestation) × (get target s.trust ≡ some a) × (a.revoked_by ≡ none)
Allowed id s (Effect.invite i) = MayInvite s i
Allowed id s (Effect.admit event invitee p) = (i : Invitation) × MayAdmit s event invitee p i
Allowed id s (Effect.remove_principal target event was) = MayRemove s target event was
Allowed id s _ = Unit

pub refuse_found-ok :
    {A : Type 0} (found : Option (ℕ × A)) (reason : ℕ → Reason)
    → refuse_found found reason ≡ ok tt
    → found ≡ none
unfolding refuse_found
refuse_found-ok none reason h = refl
refuse_found-ok (some (event, _)) reason h = cc

pub not_open : (i : InvitationStatus) → not (is_open i) ≡ false → i ≡ InvitationStatus.opened
not_open InvitationStatus.opened h = refl
not_open InvitationStatus.accepted h = cc
not_open InvitationStatus.cancelled h = cc

module _ (id : ℕ) (s : LedgerState) where
  check_attestation-Allowed :
      (subject : ℕ) (signer : Option SigningPrincipal)
      → Ensures (Allowed id s) (check_attestation s subject signer)
  unfolding check_attestation
  check_attestation-Allowed subject signer = Ensures-bind _ _ λ _ own. Ensures-bind _ _ λ _ free.
      Ensures-bind _ _ λ p signed. Ensures-ok (Effect.attest subject p) (
        ground arith,
        ground
            (arith, refuse_found-ok (unrevoked s subject) (Reason.duplicate_attestation subject)),
      )

  check_revocation-Allowed : (target : ℕ) → Ensures (Allowed id s) (check_revocation s target)
  unfolding check_revocation
  check_revocation-Allowed target = Ensures-bind _ _ λ a found. unless_revoked-Allowed a found
    where
      unless_revoked-Allowed :
          (a : Attestation)
          → ok_or (get target s.trust) (Reason.unknown_revocation_target target) ≡ ok a
          → Ensures (Allowed id s) (unless_revoked target a.revoked_by)
      unless_revoked-Allowed a found = elim (Option-cases a.revoked_by) [
        | inl free ↦ rw free (Ensures-ok (Effect.revoke target) (a, ground arith, free))
        | inr (r, e) ↦ rw e (record { holds = λ b h. cc })
      ]

  check_removal-Allowed : (target : ℕ) → Ensures (Allowed id s) (check_removal s target)
  unfolding check_removal
  check_removal-Allowed target = Ensures-bind _ _ λ _ root. Ensures-bind _ _ λ _ known.
      Ensures-bind _ _ λ _ others.
        Ensures-ok
          (Effect.remove_principal target (event_of (open_invitation_of s target))
            (is_some (get target s.principals)))
          (record {
            not_raw_root = reject_if-ok _ _ root;
            cancels = refl;
            removes = refl;
            others = reject_if-ok _ _ others;
          })

  module _ (c : Crypto) where
    seed_root-SeedMatches :
        (root : Option Proto.InceptionRoot)
        → Ensures (λ r. SeedMatches id r.0 ((r.1, controller_with r.2) ∷ [])) (seed_root c id root)
    unfolding seed_root
    seed_root-SeedMatches none = record { holds = λ r h. cc }
    seed_root-SeedMatches (some (Proto.InceptionRoot.raw_root r)) =
        Ensures-bind _ _ λ key _.
          Ensures-bind _ _ λ reserve _. Ensures-ok (LedgerRoot.raw key reserve, id, key) refl
    seed_root-SeedMatches (some (Proto.InceptionRoot.identity_root r)) =
        Ensures-bind _ _ λ founder _.
          Ensures-bind _ _ λ key _. Ensures-ok (LedgerRoot.identity founder key, founder, key) refl

    seed_from_inception-Allowed :
        (i : Proto.Inception) → Ensures (Allowed id s) (seed_from_inception c id i)
    unfolding seed_from_inception insert
    seed_from_inception-Allowed i = Ensures-bind _ _ λ kind _.
        Ensures-bind _ _ λ (r, a, key) seeded.
          Ensures-ok (Effect.seed kind r ((a, controller_with key) ∷ []))
            ((seed_root-SeedMatches i.root).holds (r, a, key) seeded)

    check_invitation-Allowed :
        (i : Proto.MembershipInvitation) → Ensures (Allowed id s) (check_invitation c s i)
    unfolding check_invitation
    check_invitation-Allowed i = Ensures-bind _ _ λ invitee _. Ensures-bind _ _ λ key _.
        Ensures-bind _ _ λ role _. Ensures-bind _ _ λ _ free. Ensures-bind _ _ λ _ kept.
          Ensures-ok
            (Effect.invite (record {
              invitee = invitee;
              invitee_key = key;
              role = role;
              status = InvitationStatus.opened;
            }))
            (record {
              none_open = refuse_found-ok _ _ free;
              keeps_key = λ p e. ground arith;
              opened = refl;
            })

    check_admission-Allowed :
        (event : ℕ) (blob : Proto.Acceptance) (i : Invitation)
        → get event s.invitations ≡ some i
        → Ensures (Allowed id s) (check_admission c s event blob i)
    unfolding check_admission
    check_admission-Allowed event blob i found = Ensures-bind _ _ λ _ opened.
        Ensures-bind _ _ λ invitee _. Ensures-bind _ _ λ _ _. Ensures-bind _ _ λ key _.
          Ensures-bind _ _ λ _ _. Ensures-bind _ _ λ _ sole. Ensures-bind _ _ λ t lower.
            Ensures-ok
              (Effect.admit event i.invitee (record { role = i.role; active_key = i.invitee_key }))
              (
                i,
                record {
                  found = found;
                  opened = not_open _ (reject_if-ok _ _ opened);
                  invited = refl;
                  role = refl;
                  key = refl;
                  sole_key = refuse_found-ok _ _ sole;
                  lowering = lower;
                },
              )

    check_acceptance-Allowed :
        (blob : Proto.Acceptance) → Ensures (Allowed id s) (check_acceptance c s blob)
    unfolding check_acceptance
    check_acceptance-Allowed blob = Ensures-bind _ _ λ _ _. Ensures-bind _ _ λ _ _.
        Ensures-bind _ _ λ _ _. Ensures-bind _ _ λ event _.
          Ensures-bind _ _ λ i found. check_admission-Allowed event blob i (ok_or-some _ _ found)

    -- Whatever the payload, the effect that the semantic rules let through is allowed.
    pub check_semantics-Allowed :
        (g : Gate) (payload : Payload) (signer : Option SigningPrincipal)
        → Ensures (Allowed id s) (check_semantics c g s id payload signer)
    unfolding check_semantics
    check_semantics-Allowed g (Payload.inception i) signer = seed_from_inception-Allowed i
    check_semantics-Allowed g (Payload.witness_config w) signer =
        Ensures-bind _ _ λ keys _. Ensures-ok (Effect.witness_endpoints keys) tt
    check_semantics-Allowed g (Payload.witness_set w) signer =
        Ensures-bind _ _ λ ids _. Ensures-bind _ _ λ p _. Ensures-ok (Effect.witness_set ids p) tt
    check_semantics-Allowed g (Payload.endpoint_advertisement a) signer =
        Ensures-bind _ _ λ keys _. Ensures-bind _ _ λ p _. Ensures-ok (Effect.endpoints keys p) tt
    check_semantics-Allowed g (Payload.trust_attestation a) signer =
        Ensures-bind _ _ λ subject _. check_attestation-Allowed subject signer
    check_semantics-Allowed g (Payload.trust_revocation r) signer =
        Ensures-bind _ _ λ target _. check_revocation-Allowed target
    check_semantics-Allowed g (Payload.membership_invitation i) signer = check_invitation-Allowed i
    check_semantics-Allowed g (Payload.membership_acceptance a) signer =
        Ensures-bind _ _ λ blob _. check_acceptance-Allowed blob
    check_semantics-Allowed g (Payload.membership_removal r) signer =
        Ensures-bind _ _ λ target _. check_removal-Allowed target
    check_semantics-Allowed g (Payload.profile_update p) signer = Ensures-bind _ _ λ who _.
        Ensures-ok
          (Effect.set_profile (set_name p.display_name) (set_name p.hostname) (set_name p.email)
            who)
          tt
