-- ===== src/Fold/Reason.antt =====
-- `InvitationStatus`, `Reason` and `Violation` of crates/mabel-core/src/fold.rs, and the outcome of
-- a fallible step of the fold.
use mabel.Base.{ℕ, String, Option, none, some, Bool, true, false, ◌≡◌, ◌⊎◌, inl, inr, refl, ap}
use mathlib.Core.Path.{subst}
use mabel.Validate.Error
use mabel.Validate.Error.{WireError}

pub data InvitationStatus : Type 0 where
  opened accepted cancelled : InvitationStatus

pub data Reason : Type 0 where
  wire : (error : WireError) → Reason
  wrong_seq : (expected : ℕ) → (found : ℕ) → Reason
  wrong_ledger : (expected : ℕ) → (found : ℕ) → Reason
  broken_prev_link : (expected : ℕ) → (found : ℕ) → Reason
  backwards_timestamp : (previous : ℕ) → (found : ℕ) → Reason
  payload_not_allowed : (seq : ℕ) → (payload : String) → Reason
  invalid_public_key : (field : String) → Reason
  unauthorized_signer : (key : ℕ) → Reason
  bad_signature : Reason
  duplicate_attestation : (subject : ℕ) → (attestation : ℕ) → Reason
  self_attestation : (id : ℕ) → Reason
  unknown_revocation_target : (id : ℕ) → Reason
  already_revoked : (target : ℕ) → (revoked_by : ℕ) → Reason
  duplicate_invitation : (invitee : ℕ) → (invitation : ℕ) → Reason
  principal_key_mismatch : (identity : ℕ) → (expected : ℕ) → (found : ℕ) → Reason
  acceptance_for_another_ledger : (named : ℕ) → (expected : ℕ) → Reason
  unknown_invitation : (id : ℕ) → Reason
  invitation_not_open : (invitation : ℕ) → (status : InvitationStatus) → Reason
  acceptance_invitee_mismatch : (named : ℕ) → (invited : ℕ) → Reason
  acceptance_invitee_key_mismatch : (named : ℕ) → (invited : ℕ) → Reason
  duplicate_principal_key : (key : ℕ) → (held_by : ℕ) → Reason
  root_not_removable : (id : ℕ) → Reason
  unknown_removal_target : (id : ℕ) → Reason
  last_controller : (id : ℕ) → Reason
  root_not_demotable : (id : ℕ) → Reason
  demotes_last_controller : (id : ℕ) → Reason

-- A stable snake-case name for this rejection class.
pub code : Reason → String
code (Reason.wire error) = Error.code error
code (Reason.wrong_seq _ _) = "wrong_seq"
code (Reason.wrong_ledger _ _) = "wrong_ledger"
code (Reason.broken_prev_link _ _) = "broken_prev_link"
code (Reason.backwards_timestamp _ _) = "backwards_timestamp"
code (Reason.payload_not_allowed _ _) = "payload_not_allowed"
code (Reason.invalid_public_key _) = "invalid_public_key"
code (Reason.unauthorized_signer _) = "unauthorized_signer"
code Reason.bad_signature = "bad_signature"
code (Reason.duplicate_attestation _ _) = "duplicate_attestation"
code (Reason.self_attestation _) = "self_attestation"
code (Reason.unknown_revocation_target _) = "unknown_revocation_target"
code (Reason.already_revoked _ _) = "already_revoked"
code (Reason.duplicate_invitation _ _) = "duplicate_invitation"
code (Reason.principal_key_mismatch _ _ _) = "principal_key_mismatch"
code (Reason.acceptance_for_another_ledger _ _) = "acceptance_for_another_ledger"
code (Reason.unknown_invitation _) = "unknown_invitation"
code (Reason.invitation_not_open _ _) = "invitation_not_open"
code (Reason.acceptance_invitee_mismatch _ _) = "acceptance_invitee_mismatch"
code (Reason.acceptance_invitee_key_mismatch _ _) = "acceptance_invitee_key_mismatch"
code (Reason.duplicate_principal_key _ _) = "duplicate_principal_key"
code (Reason.root_not_removable _) = "root_not_removable"
code (Reason.unknown_removal_target _) = "unknown_removal_target"
code (Reason.last_controller _) = "last_controller"
code (Reason.root_not_demotable _) = "root_not_demotable"
code (Reason.demotes_last_controller _) = "demotes_last_controller"

pub record Violation : Type 0 where
  pub seq : ℕ
  pub reason : Reason

-- What a step of the fold comes to: a value, a rejection, or a panic where the source calls
-- `expect` on a value that is not there.
pub data Outcome {ℓ} (A : Type ℓ) : Type ℓ where
  ok : A → Outcome A
  err : Reason → Outcome A
  panic : Outcome A

infixl 5 ◌>>=◌ ◌>>◌
unfoldable pub ◌>>=◌ {ℓ κ} : {A : Type ℓ} {B : Type κ} → Outcome A → (A → Outcome B) → Outcome B
ok a >>= f = f a
err r >>= f = err r
panic >>= f = panic

abbrev pub ◌>>◌ {ℓ} : {B : Type ℓ} → Outcome (Unit {0}) → Outcome B → Outcome B
m >> k = m >>= λ _. k

-- `if broken { return Err(reason) }`.
abbrev pub reject_if : Bool → Reason → Outcome (Unit {0})
reject_if true r = err r
reject_if false r = ok tt

-- `option.expect(…)`.
abbrev pub expect {ℓ} : {A : Type ℓ} → Option A → Outcome A
expect none = panic
expect (some a) = ok a

-- `option.ok_or(reason)?`.
abbrev pub ok_or {ℓ} : {A : Type ℓ} → Option A → Reason → Outcome A
ok_or none r = err r
ok_or (some a) r = ok a

-- Every value that the step returns has the property.
pub record Ensures {ℓ κ} {A : Type ℓ} (P : A → Type κ) (o : Outcome A) : Type (ℓ ⊔ κ) where
  pub holds : (a : A) → o ≡ ok a → P a

-- The rule for a step that goes on with the value of another.
pub Ensures-bind {ℓ κ λ'} :
    {A : Type ℓ} {B : Type κ} {P : B → Type λ'} (m : Outcome A) (f : A → Outcome B)
    → ((a : A) → m ≡ ok a → Ensures P (f a))
    → Ensures P (m >>= f)
unfolding ◌>>=◌
Ensures-bind (ok a) f h = h a refl
Ensures-bind (err r) f h = record { holds = λ b e. cc }
Ensures-bind panic f h = record { holds = λ b e. cc }

abbrev pub or_else {ℓ} : {A : Type ℓ} → A → Outcome A → A
or_else a (ok b) = b
or_else a _ = a

pub Ensures-ok {ℓ κ} : {A : Type ℓ} {P : A → Type κ} (a : A) → P a → Ensures P (ok a)
Ensures-ok {P} a p = record { holds = λ b e. subst P (ap (or_else a) e) p }

pub ok_or-some {ℓ} :
    {A : Type ℓ} (o : Option A) (r : Reason) {a : A} → ok_or o r ≡ ok a → o ≡ some a
ok_or-some none r h = cc
ok_or-some (some b) r h = cc

pub reject_if-ok : (b : Bool) (r : Reason) → reject_if b r ≡ ok tt → b ≡ false
reject_if-ok true r h = cc
reject_if-ok false r h = refl

pub expect-some {ℓ} : {A : Type ℓ} (o : Option A) {a : A} → expect o ≡ ok a → o ≡ some a
expect-some none h = cc
expect-some (some b) h = cc

pub Outcome-cases {ℓ} :
    {A : Type ℓ} (o : Outcome A)
    → ((a : A) × (o ≡ ok a)) ⊎ (((r : Reason) × (o ≡ err r)) ⊎ (o ≡ panic))
Outcome-cases (ok a) = inl (a, refl)
Outcome-cases (err r) = inr (inl (r, refl))
Outcome-cases panic = inr (inr refl)
