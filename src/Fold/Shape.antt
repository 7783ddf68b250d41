-- ===== src/Fold/Shape.antt =====
-- Which payloads of crates/mabel-core/src/fold.rs have the effect of a seed, and where `check_position`
-- lets them stand.
use mabel.Base.{ℕ, Bool, true, false, not, ◌≡◌, Option, none, some, ◌==◌, refl, arith, is_some}
use mabel.Crypto.{Crypto}
use mabel.Proto
use mabel.Proto.{Payload}
use mabel.Fold.Reason.{ok, Ensures, Ensures-bind, Ensures-ok, reject_if-ok}
use mabel.Fold.State.{LedgerState, SigningPrincipal, Invitation, next_seq}
use mabel.Fold.Effect.{Effect}
use mabel.Fold.Checks.{
  check_attestation, check_revocation, check_invitation, check_acceptance, check_admission,
  check_removal, seed_from_inception, unless_revoked,
}
use mabel.Fold.Apply.{Gate, check_semantics, check_position, is_inception, same}

-- Whether the effect is the one of an inception.
abbrev pub is_seed : Effect → Bool
is_seed (Effect.seed _ _ _) = true
is_seed _ = false

abbrev IsSeed : Bool → Effect → Type 0
IsSeed first effect = is_seed effect ≡ first

unless_revoked-IsSeed :
    (target : ℕ) (o : Option ℕ) → Ensures (IsSeed false) (unless_revoked target o)
unless_revoked-IsSeed target none = Ensures-ok _ refl
unless_revoked-IsSeed target (some r) = record { holds = λ e h. cc }

module _ (c : Crypto) (s : LedgerState) where
  check_admission-IsSeed :
      (event : ℕ) (blob : Proto.Acceptance) (i : Invitation)
      → Ensures (IsSeed false) (check_admission c s event blob i)
  unfolding check_admission
  check_admission-IsSeed event blob i = Ensures-bind _ _ λ _ _. Ensures-bind _ _ λ _ _.
      Ensures-bind _ _ λ _ _. Ensures-bind _ _ λ _ _.
        Ensures-bind _ _ λ _ _. Ensures-bind _ _ λ _ _. Ensures-bind _ _ λ _ _. Ensures-ok _ refl

  pub check_semantics-IsSeed :
      (g : Gate) (id : ℕ) (payload : Payload) (signer : Option SigningPrincipal)
      → Ensures (IsSeed (is_inception payload)) (check_semantics c g s id payload signer)
  unfolding check_semantics check_attestation check_revocation check_invitation check_acceptance
      check_removal seed_from_inception
  check_semantics-IsSeed g id (Payload.inception i) signer =
      Ensures-bind _ _ λ _ _. Ensures-bind _ _ λ _ _. Ensures-ok _ refl
  check_semantics-IsSeed g id (Payload.witness_config w) signer =
      Ensures-bind _ _ λ _ _. Ensures-ok _ refl
  check_semantics-IsSeed g id (Payload.witness_set w) signer =
      Ensures-bind _ _ λ _ _. Ensures-bind _ _ λ _ _. Ensures-ok _ refl
  check_semantics-IsSeed g id (Payload.endpoint_advertisement a) signer =
      Ensures-bind _ _ λ _ _. Ensures-bind _ _ λ _ _. Ensures-ok _ refl
  check_semantics-IsSeed g id (Payload.trust_attestation a) signer = Ensures-bind _ _ λ _ _.
      Ensures-bind _ _ λ _ _. Ensures-bind _ _ λ _ _. Ensures-bind _ _ λ _ _. Ensures-ok _ refl
  check_semantics-IsSeed g id (Payload.trust_revocation r) signer =
      Ensures-bind _ _ λ target _. Ensures-bind _ _ λ a _. unless_revoked-IsSeed target a.revoked_by
  check_semantics-IsSeed g id (Payload.membership_invitation i) signer = Ensures-bind _ _ λ _ _.
      Ensures-bind _ _ λ _ _.
        Ensures-bind _ _ λ _ _. Ensures-bind _ _ λ _ _. Ensures-bind _ _ λ _ _. Ensures-ok _ refl
  check_semantics-IsSeed g id (Payload.membership_acceptance a) signer = Ensures-bind _ _ λ blob _.
      Ensures-bind _ _ λ _ _. Ensures-bind _ _ λ _ _. Ensures-bind _ _ λ _ _.
        Ensures-bind _ _ λ event _. Ensures-bind _ _ λ i _. check_admission-IsSeed event blob i
  check_semantics-IsSeed g id (Payload.membership_removal r) signer = Ensures-bind _ _ λ _ _.
      Ensures-bind _ _ λ _ _. Ensures-bind _ _ λ _ _. Ensures-bind _ _ λ _ _. Ensures-ok _ refl
  check_semantics-IsSeed g id (Payload.profile_update p) signer =
      Ensures-bind _ _ λ _ _. Ensures-ok _ refl

-- An accepted position holds an inception exactly at seq 0.
pub check_position-is_inception :
    (seq : ℕ) (payload : Payload)
    → check_position seq payload ≡ ok tt
    → is_inception payload ≡ (seq == 0)
unfolding check_position
check_position-is_inception seq payload h =
    ground (arith, reject_if-ok (not (same (is_inception payload) (seq == 0))) _ h)

-- A state with a head is past seq 0.
pub next_seq-headed : (s : LedgerState) → is_some s.head ≡ true → (next_seq s == 0) ≡ false
unfolding next_seq
next_seq-headed s h = ground arith
