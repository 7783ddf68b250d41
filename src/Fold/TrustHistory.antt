-- ===== src/Fold/TrustHistory.antt =====
-- What one accepted event may change of a live ledger's attestations: crates/mabel-core/src/fold.rs,
-- `apply` and `commit`.
use mabel.Base.{
  ℕ, false, ◌≡◌, ◌≢◌, ◌⊎◌, inl, inr, none, some, refl, arith, ◌==◌, Bool-cases, sym, ◌∙◌, ap,
}
use mathlib.Core.Path.{subst}
use mabel.Base.Bytes.{Bytes}
use mabel.Base.Map.{get}
use mabel.Base.MapLaws.{get-insert}
use mabel.Crypto.{Crypto}
use mabel.Fold.Reason.{ok, Ensures, Ensures-bind, Ensures-ok, expect-some}
use mabel.Fold.State.{Head, Attestation, LedgerState}
use mabel.Fold.Effect.{Effect, commit_effect}
use mabel.Fold.Rules.{Allowed}
use mabel.Fold.Apply.{Gate, apply}
use mabel.Fold.Shape.{is_seed}
use mabel.Fold.Sound.{IsLive}
use mabel.Fold.Steps.{head_injective, apply-Advance}

-- The attestation is as it was, or it was unrevoked and event `id` revoked it.
pub record KeptAttestation (id e : ℕ) (a : Attestation) (t : LedgerState) : Type 0 where
  pub after : Attestation
  pub held : get e t.trust ≡ some after
  pub change : (after ≡ a) ⊎ ((a.revoked_by ≡ none) × (after ≡ record a { revoked_by = some id }))

-- Every attestation under another id is kept.
abbrev pub KeepsTrust : LedgerState → ℕ → LedgerState → Type 0
KeepsTrust s id t =
    (e : ℕ) (a : Attestation) → e ≢ id → get e s.trust ≡ some a → KeptAttestation id e a t

keeps_trust :
    (s : LedgerState) (seq id : ℕ) (effect : Effect)
    → is_seed effect ≡ false
    → Allowed id s effect
    → Ensures (KeepsTrust s id) (commit_effect seq id effect s)
unfolding commit_effect
keeps_trust s seq id (Effect.seed k r ps) later allowed = cc
keeps_trust s seq id (Effect.revoke target) later (b, found, free) = Ensures-bind _ _ λ b' expected.
    let found' = expect-some _ expected in
    Ensures-ok _ λ e a other held. elim (Bool-cases (target == e)) [
      | inl same ↦ record {
        after = record a { revoked_by = some id };
        held = ground (
          arith,
          same,
          held,
          found',
          get-insert target e (record b' { revoked_by = some id }) s.trust,
        );
        change = inr (ground (arith, same, held, found, free), refl);
      }
      | inr differ ↦ record {
        after = a;
        held =
            ground (
              arith,
              differ,
              held,
              get-insert target e (record b' { revoked_by = some id }) s.trust,
            );
        change = inl refl;
      }
    ]
keeps_trust s seq id (Effect.attest subject signer) later allowed = Ensures-ok _ λ e a other held.
    record {
      after = a;
      held = ground (
        arith,
        get-insert id e
            (record { subject = subject; signing_principal = signer; revoked_by = none }) s.trust,
      );
      change = inl refl;
    }
keeps_trust s seq id (Effect.admit event invitee p) later allowed =
    Ensures-bind _ _
      λ _ _. Ensures-ok _ λ e a other held. record { after = a; held = held; change = inl refl }
keeps_trust s seq id (Effect.remove_principal target event was) later allowed =
    Ensures-bind _ _
      λ _ _. Ensures-ok _ λ e a other held. record { after = a; held = held; change = inl refl }
keeps_trust s seq id _ later allowed =
    Ensures-ok _ λ e a other held. record { after = a; held = held; change = inl refl }

-- An accepted event on a live ledger, whose id is in the new head, keeps every attestation of another
-- id as it is, or revokes it under its own id, which it does only to an unrevoked one.
pub apply-KeepsTrust :
    (c : Crypto) (g : Gate) (s t : LedgerState) (event : Bytes)
    → IsLive s
    → apply c g s event ≡ ok t
    → (head : Head) → t.head ≡ some head
    → (e : ℕ) (a : Attestation) → e ≢ head.event_id
    → get e s.trust ≡ some a
    → KeptAttestation head.event_id e a t
apply-KeepsTrust c g s t event live h head at_head e a other held =
    let step =
      (apply-Advance s (KeepsTrust s)
          (λ id u _ k e a other held.
            let r = k e a other held in
            record { after = r.after; held = r.held; change = r.change })
          (keeps_trust s) c g event live).holds
        t h in
    let same = head_injective (sym step.at_head ∙ at_head) in
    subst (λ h. KeptAttestation h.event_id e a t) same
      (step.holds e a (λ eq. other (eq ∙ ap (λ h. h.event_id) same)) held)
