-- ===== src/Fold/Consent.antt =====
-- What an accepted acceptance proves on the ledger: `check_acceptance` of crates/mabel-core/src/fold.rs
-- and the admission that `commit` makes of it.
use mabel.Base.{
  ℕ, true, false, not, ◌≡◌, ◌≢◌, Option, some, refl, sym, ap, ◌∙◌, arith, ◌==◌, inl, inr,
}
use mathlib.Core.Path.{subst}
use mabel.Base.Bytes.{Bytes}
use mabel.Base.Map.{get, IsOrdered}
use mabel.Base.MapLaws.{get-insert, find-none}
use mabel.Proto
use mabel.Proto.{Payload}
use mabel.Crypto.{Crypto, event_id, from_slice}
use mabel.Fold.Reason.{
  ok, InvitationStatus, Ensures, Ensures-bind, Ensures-ok, expect-some, ok_or-some, reject_if-ok,
}
use mabel.Fold.State.{
  LedgerRoot, Principal, SigningPrincipal, Invitation, LedgerState, is_controller, is_raw_root,
  root_identity, next_seq,
}
use mabel.Fold.Effect.{Effect, commit, commit_effect}
use mabel.Fold.Checks.{identity, check_admission, check_acceptance, is_another_with}
use mabel.Fold.Apply.{Gate, apply, check_semantics}
use mabel.Fold.Rules.{refuse_found-ok, not_open}
use mabel.Fold.Controllers.{Controller, controller_keys_without-found}
use mabel.Fold.Principals.{check_lowering-cases}
use mabel.Fold.Invitations.{set_status-eq}
use mabel.Fold.Authority.{public_key-from_slice}
use mabel.Fold.Sound.{IsLive}
use mabel.Fold.Accepted.{apply-Accepted}

-- The blob answers an open invitation of this very ledger, by its invitee under its key, which no
-- other principal holds. Where the invitation lowers a controller, another controller stays, and it
-- is not the root of a raw-rooted ledger.
pub record Answers (s : LedgerState) (blob : Proto.Acceptance) (event : ℕ) (i : Invitation)
    : Type 0 where
  pub this_ledger : from_slice blob.ledger ≡ s.ledger
  pub this_event : from_slice blob.invitation_event ≡ some event
  pub held : get event s.invitations ≡ some i
  pub opened : i.status ≡ InvitationStatus.opened
  pub same_invitee : from_slice blob.invitee ≡ some i.invitee
  pub same_key : from_slice blob.invitee_key ≡ some i.invitee_key
  pub sole_key :
      (a : ℕ) (p : Principal)
      → get a s.principals ≡ some p
      → p.active_key ≡ i.invitee_key
      → a ≡ i.invitee
  pub leaves_controller :
      (p : Principal)
      → get i.invitee s.principals ≡ some p
      → is_controller p.role ≡ true
      → is_controller i.role ≡ false
      → Controller (λ id. not (id == i.invitee)) s.principals
  pub spares_root :
      (p : Principal) (key commitment : ℕ)
      → get i.invitee s.principals ≡ some p
      → is_controller p.role ≡ true
      → is_controller i.role ≡ false
      → s.root ≡ some (LedgerRoot.raw key commitment)
      → s.ledger ≢ some i.invitee

-- The invitee is a principal with the role and the key of the invitation, which is used up.
pub record Joined (t : LedgerState) (event : ℕ) (i : Invitation) : Type 0 where
  pub joined :
      get i.invitee t.principals ≡ some (record { role = i.role; active_key = i.invitee_key })
  pub used : get event t.invitations ≡ some (record i { status = InvitationStatus.accepted })

abbrev admitted : ℕ → Invitation → Effect
admitted event i =
    Effect.admit event i.invitee (record { role = i.role; active_key = i.invitee_key })

named-eq : (n m : ℕ) (o : Option ℕ) → o ≡ some n → not (n == m) ≡ false → o ≡ some m
named-eq n m o e same = ground (arith, e, same)

spares-raw :
    (s : LedgerState) (target key commitment : ℕ)
    → is_raw_root s target ≡ false
    → s.root ≡ some (LedgerRoot.raw key commitment)
    → s.ledger ≢ some target
unfolding is_raw_root root_identity
spares-raw s target key commitment other rooted same = absurd (ground (arith, other, rooted, same))

check_admission-Answers :
    (c : Crypto) (s : LedgerState) (event : ℕ) (blob : Proto.Acceptance) (i : Invitation)
    → IsOrdered s.principals
    → from_slice blob.ledger ≡ s.ledger
    → from_slice blob.invitation_event ≡ some event
    → get event s.invitations ≡ some i
    → Ensures
        (λ effect. Answers s blob event i × (effect ≡ admitted event i))
        (check_admission c s event blob i)
unfolding check_admission identity
check_admission-Answers c s event blob i ordered this_ledger this_event held =
    Ensures-bind _ _ λ _ opened. Ensures-bind _ _ λ invitee named. Ensures-bind _ _ λ _ same.
      Ensures-bind _ _ λ key keyed. Ensures-bind _ _ λ _ same'. Ensures-bind _ _ λ _ sole.
        Ensures-bind _ _ λ t lower.
          let cases = check_lowering-cases s i lower in
          Ensures-ok (admitted event i) (
            record {
              this_ledger = this_ledger;
              this_event = this_event;
              held = held;
              opened = not_open _ (reject_if-ok _ _ opened);
              same_invitee =
                  named-eq invitee i.invitee _ (expect-some _ named) (reject_if-ok _ _ same);
              same_key =
                  named-eq key i.invitee_key _
                    (public_key-from_slice c blob.invitee_key _ key keyed) (reject_if-ok _ _ same');
              sole_key = λ a p e same. ground (
                arith,
                find-none (is_another_with i.invitee_key i.invitee) a p s.principals
                    (refuse_found-ok _ _ sole) e,
                same,
              );
              leaves_controller = λ p e controls lowers. elim cases [
                | inl keeps ↦ absurd (ground (arith, keeps, lowers))
                | inr (inl free) ↦ absurd (ground (arith, free, e, controls))
                | inr (inr may) ↦ controller_keys_without-found s i.invitee ordered may.others
              ];
              spares_root = λ p k m e controls lowers rooted. elim cases [
                | inl keeps ↦ absurd (ground (arith, keeps, lowers))
                | inr (inl free) ↦ absurd (ground (arith, free, e, controls))
                | inr (inr may) ↦ spares-raw s i.invitee k m may.not_raw_root rooted
              ];
            },
            refl,
          )

-- The effect of an acceptance is the admission of the invitation that its blob answers.
pub record Consents (s : LedgerState) (blob : Proto.Acceptance) (effect : Effect) : Type 0 where
  pub event : ℕ
  pub invitation : Invitation
  pub answers : Answers s blob event invitation
  pub admits : effect ≡ admitted event invitation

check_acceptance-Consents :
    (c : Crypto) (s : LedgerState) (blob : Proto.Acceptance)
    → IsOrdered s.principals
    → Ensures (Consents s blob) (check_acceptance c s blob)
unfolding check_acceptance identity
check_acceptance-Consents c s blob ordered = Ensures-bind _ _ λ ledger own.
    Ensures-bind _ _ λ named e. Ensures-bind _ _ λ _ same. Ensures-bind _ _ λ event e'.
      Ensures-bind _ _ λ i found.
        let this = named-eq named ledger _ (expect-some _ e) (reject_if-ok _ _ same) in
        let held = ok_or-some _ _ found in
        let answers =
          check_admission-Answers c s event blob i ordered (this ∙ sym (ok_or-some _ _ own))
            (expect-some _ e') held in
        record {
          holds = λ effect h. record {
            event = event;
            invitation = i;
            answers = (answers.holds effect h).0;
            admits = (answers.holds effect h).1;
          };
        }

semantics-Consents :
    (c : Crypto) (g : Gate) (s : LedgerState) (id : ℕ) (acceptance : Proto.MembershipAcceptance)
    (signer : Option SigningPrincipal)
    → IsOrdered s.principals
    → Ensures
        (λ effect.
          (blob : Proto.Acceptance) × (g.decode_acceptance acceptance.acceptance ≡ some blob)
          × Consents s blob effect)
        (check_semantics c g s id (Payload.membership_acceptance acceptance) signer)
unfolding check_semantics
semantics-Consents c g s id acceptance signer ordered = Ensures-bind _ _ λ blob e. record {
  holds = λ effect h.
      (blob, expect-some _ e, (check_acceptance-Consents c s blob ordered).holds effect h);
}

effect-Joined :
    (seq id event : ℕ) (i : Invitation) (s : LedgerState)
    → get event s.invitations ≡ some i
    → Ensures (λ t. Joined t event i) (commit_effect seq id (admitted event i) s)
unfolding commit_effect
effect-Joined seq id event i s held = Ensures-bind _ _ λ m done. Ensures-ok _ (record {
  joined = ground (
    arith,
    get-insert i.invitee i.invitee (record { role = i.role; active_key = i.invitee_key })
        s.principals,
  );
  used = ground (
    arith,
    set_status-eq event InvitationStatus.accepted i s.invitations m held done,
    get-insert event event (record i { status = InvitationStatus.accepted }) s.invitations,
  );
})

commit-Joined :
    (seq id time event : ℕ) (i : Invitation) (s : LedgerState)
    → get event s.invitations ≡ some i
    → Ensures (λ t. Joined t event i) (commit seq id time (admitted event i) s)
unfolding commit
commit-Joined seq id time event i s held = Ensures-bind _ _ λ u e.
    let j = (effect-Joined seq id event i s held).holds u e in
    Ensures-ok _ (record { joined = j.joined; used = j.used })

-- On a live ledger, where the event that is accepted carries an acceptance, its blob decodes to one
-- that names this ledger and an invitation that was open on it, by the invitee and the key of that
-- invitation, and no other principal holds the key. Where the invitation lowers a controller,
-- another controller is left and the invitee is not the root of a raw-rooted ledger. Afterwards the
-- invitee is a principal with the role and the key of the invitation, which is marked accepted.
pub apply-Answers :
    (c : Crypto) (g : Gate) (s t : LedgerState) (event : Bytes) (signed : Proto.SignedEvent)
    (body : Proto.EventBody) (acceptance : Proto.MembershipAcceptance)
    → IsLive s
    → apply c g s event ≡ ok t
    → g.decode_signed_event event ≡ some signed
    → g.decode_event_body signed.body ≡ some body
    → body.payload ≡ some (Payload.membership_acceptance acceptance)
    → (blob : Proto.Acceptance) × (target : ℕ) × (i : Invitation) × (g.decode_acceptance
          acceptance.acceptance
        ≡ some blob)
      × Answers s blob target i
      × Joined t target i
apply-Answers c g s t event signed body acceptance live h decoded body_decoded carried =
    let a = (apply-Accepted c g s event).holds t h in
    let same : some a.signed ≡ some signed = sym a.decoded ∙ decoded in
    let signed_is : a.signed ≡ signed = cc in
    let bodies : some a.body ≡ some body =
      sym a.body_decoded
      ∙ (ap (λ (e : Proto.SignedEvent). g.decode_event_body e.body) signed_is ∙ body_decoded) in
    let body_is : a.body ≡ body = cc in
    let payloads : some a.payload ≡ some (Payload.membership_acceptance acceptance) =
      sym a.carried ∙ (ap (λ (b : Proto.EventBody). b.payload) body_is ∙ carried) in
    let payload_is : a.payload ≡ Payload.membership_acceptance acceptance = cc in
    let checked =
      subst (λ p. check_semantics c g s (event_id c a.signed.body) p a.signer ≡ ok a.effect)
        payload_is a.checked in
    let (blob, blob_decoded, consents) =
      (semantics-Consents c g s _ acceptance a.signer live.sound.members.principals_ordered).holds
        a.effect checked in
    let committed =
      subst (λ e. commit (next_seq s) (event_id c a.signed.body) a.body.timestamp_ms e s ≡ ok t)
        consents.admits a.committed in
    (
      blob,
      consents.event,
      consents.invitation,
      blob_decoded,
      consents.answers,
      (commit-Joined _ _ _ consents.event consents.invitation s consents.answers.held).holds t
          committed,
    )
