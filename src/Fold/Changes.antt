-- ===== src/Fold/Changes.antt =====
-- The invariant under `commit` of crates/mabel-core/src/fold.rs, past the inception.
use mabel.Base.{ℕ, Bool, true, false, ◌≡◌, Option, none, some, refl, sym, ◌∙◌, if◌then◌else◌}
use mathlib.Core.Path.{subst}
use mabel.Base.Map.{Map, insert, remove}
use mabel.Base.MapLaws.{insert-IsOrdered, remove-IsOrdered}
use mabel.Fold.Reason.{InvitationStatus, ok, Ensures, Ensures-bind, Ensures-ok, expect-some}
use mabel.Fold.State.{Principal, SigningPrincipal, Invitation, Attestation, LedgerState, is_open}
use mabel.Fold.Effect.{Effect, commit_effect, cancel}
use mabel.Fold.Rules.{Allowed, MayInvite, MayAdmit, MayRemove}
use mabel.Fold.Shape.{is_seed}
use mabel.Fold.Principals.{
  DistinctKeys-insert, DistinctKeys-remove, RootHeld-admit, RootHeld-remove, Controlled-admit,
  Controlled-remove_allowed,
}
use mabel.Fold.Invitations.{
  set_status-eq, cancel-Cancels, OneOpen-close, OpenKeys-admit, OpenKeys-remove, OneOpen-invite,
  OpenKeys-invite,
}
use mabel.Fold.Trust.{OneTrust-attest, OneTrust-revoke, NoSelf-insert}
use mabel.Fold.Sound.{SoundMembers, SoundTrust, IsSound, IsSound-same}

module _ (seq id : ℕ) (s : LedgerState) (v : IsSound s) where
  with_trust : (m : Map Attestation) → SoundTrust s.ledger m → IsSound (record s { trust = m })
  with_trust m t = record {
    named = v.named;
    rooted = v.rooted;
    members = v.members;
    attestations = t;
  }

  with_members :
      (ps : Map Principal) (m : Map Invitation)
      → SoundMembers s.ledger s.root ps m
      → IsSound (record s { principals = ps; invitations = m })
  with_members ps m t = record {
    named = v.named;
    rooted = v.rooted;
    members = t;
    attestations = v.attestations;
  }

  commit_attest-IsSound :
      (subject : ℕ) (signer : SigningPrincipal)
      → Allowed id s (Effect.attest subject signer)
      → Ensures IsSound (commit_effect seq id (Effect.attest subject signer) s)
  unfolding commit_effect
  commit_attest-IsSound subject signer (other, free) =
      let a : Attestation = record {
        subject = subject;
        signing_principal = signer;
        revoked_by = none;
      } in
      Ensures-ok (record s { trust = insert id a s.trust })
        (with_trust (insert id a s.trust) (record {
          ordered = insert-IsOrdered id a s.trust v.attestations.ordered;
          one_trust = OneTrust-attest s id a free v.attestations.one_trust;
          no_self = NoSelf-insert s id a other v.attestations.no_self;
        }))

  commit_revoke-IsSound :
      (target : ℕ) → Ensures IsSound (commit_effect seq id (Effect.revoke target) s)
  unfolding commit_effect
  commit_revoke-IsSound target = Ensures-bind _ _ λ a found.
      let b : Attestation = record a { revoked_by = some id } in
      Ensures-ok (record s { trust = insert target b s.trust })
        (with_trust (insert target b s.trust) (record {
          ordered = insert-IsOrdered target b s.trust v.attestations.ordered;
          one_trust = OneTrust-revoke s target b id refl v.attestations.one_trust;
          no_self =
              NoSelf-insert s target b (v.attestations.no_self.at target a (expect-some _ found))
                v.attestations.no_self;
        }))

  commit_invite-IsSound :
      (i : Invitation) → MayInvite s i → Ensures IsSound (commit_effect seq id (Effect.invite i) s)
  unfolding commit_effect
  commit_invite-IsSound i may =
      Ensures-ok (record s { invitations = insert id i s.invitations })
        (with_members s.principals (insert id i s.invitations) (record {
          principals_ordered = v.members.principals_ordered;
          invitations_ordered = insert-IsOrdered id i s.invitations v.members.invitations_ordered;
          controlled = v.members.controlled;
          distinct_keys = v.members.distinct_keys;
          root_held = v.members.root_held;
          one_open = OneOpen-invite s id i may.none_open v.members.one_open;
          open_keys = OpenKeys-invite s id i may.keeps_key v.members.open_keys;
        }))

  -- The members after `i`, the invitation of event `event`, is accepted with the principal `p`.
  admit-SoundMembers :
      (event : ℕ) (i : Invitation) (p : Principal)
      → MayAdmit s event i.invitee p i
      → SoundMembers s.ledger s.root
          (insert i.invitee p s.principals)
          (insert event (record i { status = InvitationStatus.accepted }) s.invitations)
  admit-SoundMembers event i p may =
      let opened : is_open i.status ≡ true = rw may.opened in
      record {
        principals_ordered = insert-IsOrdered i.invitee p s.principals v.members.principals_ordered;
        invitations_ordered = insert-IsOrdered event _ s.invitations v.members.invitations_ordered;
        controlled =
            Controlled-admit s i p v.members.principals_ordered may.role may.lowering
              v.members.controlled;
        distinct_keys =
            DistinctKeys-insert i.invitee p s.principals (rw may.key may.sole_key)
              v.members.distinct_keys;
        root_held =
            RootHeld-admit s i p may.role
              (λ q held. v.members.open_keys.at event i q may.found opened held ∙ sym may.key)
              may.lowering v.members.root_held;
        one_open =
            OneOpen-close event InvitationStatus.accepted s.invitations i refl v.members.one_open;
        open_keys =
            OpenKeys-admit event InvitationStatus.accepted s.invitations i p s.principals may.found
              opened refl v.members.one_open v.members.open_keys;
      }

  commit_admit_invited-IsSound :
      (event : ℕ) (p : Principal) (i : Invitation)
      → MayAdmit s event i.invitee p i
      → Ensures IsSound (commit_effect seq id (Effect.admit event i.invitee p) s)
  unfolding commit_effect
  commit_admit_invited-IsSound event p i may = Ensures-bind _ _ λ m closes.
      Ensures-ok (record s { invitations = m; principals = insert i.invitee p s.principals })
        (with_members (insert i.invitee p s.principals) m (
          rw (set_status-eq event InvitationStatus.accepted i s.invitations m may.found closes)
            (admit-SoundMembers event i p may)))

  commit_admit-IsSound :
      (event invitee : ℕ) (p : Principal) (i : Invitation)
      → MayAdmit s event invitee p i
      → Ensures IsSound (commit_effect seq id (Effect.admit event invitee p) s)
  commit_admit-IsSound event invitee p i may =
      subst
        (λ k.
          MayAdmit s event k p i
          → Ensures IsSound (commit_effect seq id (Effect.admit event k p) s))
        may.invited (commit_admit_invited-IsSound event p i) may

  -- The members after a removal that cancels `event` and takes `target` out, if it is there.
  remove-SoundMembers :
      (target : ℕ) (event : Option ℕ) (was : Bool) (m : Map Invitation)
      → MayRemove s target event was
      → cancel event s.invitations ≡ ok m
      → SoundMembers s.ledger s.root (if was then remove target s.principals else s.principals) m
  remove-SoundMembers target event false m may cancelled =
      let c = cancel-Cancels event s.invitations m s.principals cancelled (record {
        ordered = v.members.invitations_ordered;
        one_open = v.members.one_open;
        open_keys = v.members.open_keys;
      }) in
      record {
        principals_ordered = v.members.principals_ordered;
        invitations_ordered = c.ordered;
        controlled = v.members.controlled;
        distinct_keys = v.members.distinct_keys;
        root_held = v.members.root_held;
        one_open = c.one_open;
        open_keys = c.open_keys;
      }
  remove-SoundMembers target event true m may cancelled =
      let c = cancel-Cancels event s.invitations m (remove target s.principals) cancelled (record {
        ordered = v.members.invitations_ordered;
        one_open = v.members.one_open;
        open_keys = OpenKeys-remove target s.invitations s.principals v.members.open_keys;
      }) in
      record {
        principals_ordered = remove-IsOrdered target s.principals v.members.principals_ordered;
        invitations_ordered = c.ordered;
        controlled =
            Controlled-remove_allowed s target v.members.principals_ordered may.others
              v.members.controlled;
        distinct_keys = DistinctKeys-remove target s.principals v.members.distinct_keys;
        root_held = RootHeld-remove s target may.not_raw_root v.members.root_held;
        one_open = c.one_open;
        open_keys = c.open_keys;
      }

  commit_remove-IsSound :
      (target : ℕ) (event : Option ℕ) (was : Bool)
      → MayRemove s target event was
      → Ensures IsSound (commit_effect seq id (Effect.remove_principal target event was) s)
  unfolding commit_effect
  commit_remove-IsSound target event was may = Ensures-bind _ _ λ m cancelled.
      let ps : Map Principal = if was then remove target s.principals else s.principals in
      Ensures-ok (record s { invitations = m; principals = ps })
        (with_members ps m (remove-SoundMembers target event was m may cancelled))

-- Past the inception, an effect that the checks allow keeps the invariant.
pub commit_effect-IsSound :
    (seq id : ℕ) (effect : Effect) (s : LedgerState)
    → is_seed effect ≡ false
    → Allowed id s effect
    → IsSound s
    → Ensures IsSound (commit_effect seq id effect s)
unfolding commit_effect
commit_effect-IsSound seq id (Effect.seed k r ps) s h a v = cc
commit_effect-IsSound seq id (Effect.attest subject signer) s h a v =
    commit_attest-IsSound seq id s v subject signer a
commit_effect-IsSound seq id (Effect.revoke target) s h a v =
    commit_revoke-IsSound seq id s v target
commit_effect-IsSound seq id (Effect.invite i) s h a v = commit_invite-IsSound seq id s v i a
commit_effect-IsSound seq id (Effect.admit event invitee p) s h (i, may) v =
    commit_admit-IsSound seq id s v event invitee p i may
commit_effect-IsSound seq id (Effect.remove_principal target event was) s h a v =
    commit_remove-IsSound seq id s v target event was a
commit_effect-IsSound seq id (Effect.witness_endpoints keys) s h a v =
    Ensures-ok _ (IsSound-same s _ refl refl refl refl refl v)
commit_effect-IsSound seq id (Effect.witness_set ids signer) s h a v =
    Ensures-ok _ (IsSound-same s _ refl refl refl refl refl v)
commit_effect-IsSound seq id (Effect.endpoints keys signer) s h a v =
    Ensures-ok _ (IsSound-same s _ refl refl refl refl refl v)
commit_effect-IsSound seq id (Effect.set_profile n o e signer) s h a v =
    Ensures-ok _ (IsSound-same s _ refl refl refl refl refl v)
