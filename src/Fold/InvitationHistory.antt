-- ===== src/Fold/InvitationHistory.antt =====
-- What one accepted event may change of a live ledger's invitations: crates/mabel-core/src/fold.rs,
-- `apply` and `commit`.
use mabel.Base.{
  ℕ, true, false, ◌≡◌, ◌≢◌, ◌⊎◌, inl, inr, Option, none, some, refl, ◌∙◌, arith, ◌==◌, Bool-cases,
  Option-cases, sym, ap,
}
use mabel.Base.Bytes.{Bytes}
use mabel.Base.Map.{Map, get, find, insert, IsOrdered}
use mabel.Base.MapLaws.{get-insert, find-some}
use mabel.Crypto.{Crypto}
use mabel.Fold.Reason.{InvitationStatus, ok, Ensures, Ensures-bind, Ensures-ok}
use mabel.Fold.State.{Head, Invitation, LedgerState, is_open, invites, open_invitation_of}
use mabel.Fold.Effect.{Effect, commit_effect, cancel}
use mabel.Fold.Checks.{event_of}
use mabel.Fold.Invitations.{set_status-eq, set_status-Closes}
use mabel.Fold.Rules.{Allowed}
use mabel.Fold.Apply.{Gate, apply}
use mabel.Fold.Shape.{is_seed}
use mabel.Fold.Sound.{IsLive}
use mabel.Fold.Steps.{head_injective, apply-Advance}

-- What an accepted event changes of a live ledger's invitations.
pub record KeptInvitation (e : ℕ) (i : Invitation) (t : LedgerState) : Type 0 where
  pub after : Invitation
  pub held : get e t.invitations ≡ some after
  pub change :
      (after ≡ i)
      ⊎ ((i.status ≡ InvitationStatus.opened)
          × ((after ≡ record i { status = InvitationStatus.accepted })
              ⊎ (after ≡ record i { status = InvitationStatus.cancelled })))

abbrev pub KeepsInvitations : LedgerState → ℕ → LedgerState → Type 0
KeepsInvitations s id t =
    (e : ℕ) (i : Invitation) → e ≢ id → get e s.invitations ≡ some i → KeptInvitation e i t

-- Closing the open invitation of `event`, with one of the two last words.
closed_invitation :
    (s : LedgerState) (event e : ℕ) (b i : Invitation) (status : InvitationStatus) (u : LedgerState)
    → get event s.invitations ≡ some b
    → b.status ≡ InvitationStatus.opened
    → (status ≡ InvitationStatus.accepted) ⊎ (status ≡ InvitationStatus.cancelled)
    → u.invitations ≡ insert event (record b { status = status }) s.invitations
    → get e s.invitations ≡ some i
    → KeptInvitation e i u
closed_invitation s event e b i status u found opened last after held =
    elim (Bool-cases (event == e)) [
      | inl same ↦ record {
        after = record i { status = status };
        held = ground (
          arith,
          same,
          held,
          found,
          get-insert event e (record b { status = status }) s.invitations,
        );
        change = elim last [
          | inl accepted ↦ inr (ground (arith, same, held, found, opened), inl (rw accepted))
          | inr cancelled ↦ inr (ground (arith, same, held, found, opened), inr (rw cancelled))
        ];
      }
      | inr differ ↦ record {
        after = i;
        held =
            ground (
              arith,
              differ,
              held,
              get-insert event e (record b { status = status }) s.invitations,
            );
        change = inl refl;
      }
    ]

is_open-opened :
    (status : InvitationStatus) → is_open status ≡ true → status ≡ InvitationStatus.opened
is_open-opened InvitationStatus.opened h = refl
is_open-opened InvitationStatus.accepted h = cc
is_open-opened InvitationStatus.cancelled h = cc

-- The invitation that a removal cancels is an open one.
cancelled_invitation :
    (s : LedgerState) (target : ℕ) (event : Option ℕ) (m : Map Invitation) (u : LedgerState) (e : ℕ)
    (i : Invitation)
    → IsOrdered s.invitations
    → event ≡ event_of (open_invitation_of s target)
    → cancel event s.invitations ≡ ok m
    → u.invitations ≡ m
    → get e s.invitations ≡ some i
    → KeptInvitation e i u
unfolding open_invitation_of cancel
cancelled_invitation s target none m u e i ordered named done after held = record {
  after = i;
  held = ground (arith, done, after, held);
  change = inl refl;
}
cancelled_invitation s target (some event) m u e i ordered named done after held =
    elim (Option-cases (find (invites target) s.invitations)) [
      | inl missing ↦ absurd (ground (arith, missing, named))
      | inr ((f, b), found) ↦
          let at = find-some (invites target) f b s.invitations ordered found in
          let c = set_status-Closes event InvitationStatus.cancelled s.invitations m done in
          closed_invitation s event e c.before i InvitationStatus.cancelled u c.held
            (is_open-opened c.before.status (ground (arith, found, named, at, c.held))) (inr refl)
            (after ∙ c.after) held
    ]

keeps_invitations :
    (s : LedgerState)
    → IsLive s
    → (seq id : ℕ) (effect : Effect) → is_seed effect ≡ false
    → Allowed id s effect
    → Ensures (KeepsInvitations s id) (commit_effect seq id effect s)
unfolding commit_effect
keeps_invitations s v seq id (Effect.seed k r ps) later allowed = cc
keeps_invitations s v seq id (Effect.invite j) later allowed = Ensures-ok _ λ e i other held.
    record { after = i; held = ground (arith, get-insert id e j s.invitations); change = inl refl }
keeps_invitations s v seq id (Effect.admit event invitee p) later (b, may) =
    Ensures-bind _ _ λ m done. Ensures-ok _ λ e i other held.
      closed_invitation s event e b i InvitationStatus.accepted _ may.found may.opened (inl refl)
        (set_status-eq event InvitationStatus.accepted b s.invitations m may.found done) held
keeps_invitations s v seq id (Effect.remove_principal target event was) later may =
    Ensures-bind _ _ λ m done. Ensures-ok _ λ e i other held.
      cancelled_invitation s target event m _ e i v.sound.members.invitations_ordered may.cancels
        done refl held
keeps_invitations s v seq id (Effect.revoke target) later allowed =
    Ensures-bind _ _
      λ _ _. Ensures-ok _ λ e i other held. record { after = i; held = held; change = inl refl }
keeps_invitations s v seq id _ later allowed =
    Ensures-ok _ λ e i other held. record { after = i; held = held; change = inl refl }

-- An accepted event on a live ledger, whose id is in the new head, keeps every invitation of another id
-- as it is, or moves it from open to accepted or to cancelled and keeps its invitee, key and role.
pub apply-KeepsInvitations :
    (c : Crypto) (g : Gate) (s t : LedgerState) (event : Bytes)
    → IsLive s
    → apply c g s event ≡ ok t
    → (head : Head) → t.head ≡ some head
    → (e : ℕ) (i : Invitation) → e ≢ head.event_id
    → get e s.invitations ≡ some i
    → KeptInvitation e i t
apply-KeepsInvitations c g s t event live h head at_head e i other held =
    let step =
      (apply-Advance s (KeepsInvitations s)
          (λ id u _ k e i other held.
            let r = k e i other held in
            record { after = r.after; held = r.held; change = r.change })
          (keeps_invitations s live) c g event live).holds
        t h in
    let same = head_injective (sym step.at_head ∙ at_head) in
    step.holds e i (λ eq. other (eq ∙ ap (λ h. h.event_id) same)) held
