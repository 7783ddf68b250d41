-- ===== src/Fold/Membership.antt =====
-- What one accepted event may change of a live ledger's principals and of its root:
-- crates/mabel-core/src/fold.rs, `apply`, `check_acceptance`, `check_removal` and `commit`.
use mabel.Base.{
  ℕ, true, false, ◌≡◌, ◌⊎◌, inl, inr, Option, some, List, refl, ◌∙◌, arith, ◌==◌, Bool-cases,
}
use mabel.Base.Bytes.{Bytes}
use mabel.Base.Map.{get}
use mabel.Base.MapLaws.{get-insert, get-remove}
use mabel.Crypto.{Crypto}
use mabel.Fold.Reason.{InvitationStatus, ok, Ensures, Ensures-bind, Ensures-ok}
use mabel.Fold.State.{Head, Invitation, Principal, LedgerRoot, LedgerState}
use mabel.Fold.Effect.{Effect, commit_effect}
use mabel.Fold.Invitations.{set_status-eq}
use mabel.Fold.Rules.{Allowed, controller_with}
use mabel.Fold.Apply.{Gate, apply}
use mabel.Fold.Shape.{is_seed}
use mabel.Fold.Sound.{IsLive}
use mabel.Fold.Invariant.{apply-IsLive}
use mabel.Fold.Runs.{Run, done, next}
use mabel.Fold.Steps.{apply-Advance}

-- A principal that stays keeps its key.
abbrev pub KeepsKeys : LedgerState → ℕ → LedgerState → Type 0
KeepsKeys s id t =
    (a : ℕ) (p q : Principal)
    → get a s.principals ≡ some p
    → get a t.principals ≡ some q
    → q.active_key ≡ p.active_key

-- The open invitation that an acceptance consumed for `a`.
pub record Admitted (s t : LedgerState) (a : ℕ) (q : Principal) : Type 0 where
  pub event : ℕ
  pub invitation : Invitation
  pub held : get event s.invitations ≡ some invitation
  pub was_open : invitation.status ≡ InvitationStatus.opened
  pub invitee : invitation.invitee ≡ a
  pub principal : q ≡ record { role = invitation.role; active_key = invitation.invitee_key }
  pub consumed :
      get event t.invitations ≡ some (record invitation { status = InvitationStatus.accepted })

-- A principal that is new or has another role was admitted by an open invitation.
abbrev pub AdmitsInvited : LedgerState → ℕ → LedgerState → Type 0
AdmitsInvited s id t =
    (a : ℕ) (q : Principal)
    → get a t.principals ≡ some q
    → (get a s.principals ≡ some q) ⊎ Admitted s t a q

-- The identity of the ledger.
pub record KeepsRoot (s : LedgerState) (id : ℕ) (t : LedgerState) : Type 0 where
  pub ledger : t.ledger ≡ s.ledger
  pub root : t.root ≡ s.root
  pub declared_kind : t.declared_kind ≡ s.declared_kind

module _ (s : LedgerState) (live : IsLive s) (seq id : ℕ) where
  keeps_keys :
      (effect : Effect)
      → is_seed effect ≡ false
      → Allowed id s effect
      → Ensures (KeepsKeys s id) (commit_effect seq id effect s)
  unfolding commit_effect
  keeps_keys (Effect.seed k r ps) later allowed = cc
  keeps_keys (Effect.admit event invitee r) later (i, may) = Ensures-bind _ _ λ m _.
      Ensures-ok _ λ a p q before after. ground (
        arith,
        get-insert invitee a r s.principals,
        before,
        after,
        may.invited,
        may.key,
        live.sound.members.open_keys.at event i p may.found (rw may.opened),
      )
  keeps_keys (Effect.remove_principal target event false) later may =
      Ensures-bind _ _ λ m _. Ensures-ok _ λ a p q before after. ground arith
  keeps_keys (Effect.remove_principal target event true) later may =
      Ensures-bind _ _
        λ m _. Ensures-ok _ λ a p q before after. ground (arith, get-remove target a s.principals)
  keeps_keys (Effect.revoke target) later allowed =
      Ensures-bind _ _ λ _ _. Ensures-ok _ λ a p q before after. ground arith
  keeps_keys _ later allowed = Ensures-ok _ λ a p q before after. ground arith

  keeps_root :
      (effect : Effect)
      → is_seed effect ≡ false
      → Allowed id s effect
      → Ensures (KeepsRoot s id) (commit_effect seq id effect s)
  unfolding commit_effect
  keeps_root (Effect.seed k r ps) later allowed = cc
  keeps_root (Effect.admit event invitee r) later allowed =
      Ensures-bind _ _
        λ m _. Ensures-ok _ (record { ledger = refl; root = refl; declared_kind = refl })
  keeps_root (Effect.remove_principal target event was) later may =
      Ensures-bind _ _
        λ m _. Ensures-ok _ (record { ledger = refl; root = refl; declared_kind = refl })
  keeps_root (Effect.revoke target) later allowed =
      Ensures-bind _ _
        λ _ _. Ensures-ok _ (record { ledger = refl; root = refl; declared_kind = refl })
  keeps_root _ later allowed =
      Ensures-ok _ (record { ledger = refl; root = refl; declared_kind = refl })

  admits_invited :
      (effect : Effect)
      → is_seed effect ≡ false
      → Allowed id s effect
      → Ensures (AdmitsInvited s id) (commit_effect seq id effect s)
  unfolding commit_effect
  admits_invited (Effect.seed k r ps) later allowed = cc
  admits_invited (Effect.admit event invitee r) later (i, may) = Ensures-bind _ _ λ m done.
      Ensures-ok _ λ a q after. elim (Bool-cases (invitee == a)) [
        | inr other ↦ inl (ground (arith, other, after, get-insert invitee a r s.principals))
        | inl same ↦ inr (record {
          event = event;
          invitation = i;
          held = may.found;
          was_open = may.opened;
          invitee = ground (arith, same, may.invited);
          principal =
              ground (arith, same, after, may.role, may.key, get-insert invitee a r s.principals);
          consumed = ground (
            arith,
            set_status-eq event InvitationStatus.accepted i s.invitations m may.found done,
            get-insert event event (record i { status = InvitationStatus.accepted }) s.invitations,
          );
        })
      ]
  admits_invited (Effect.remove_principal target event false) later may =
      Ensures-bind _ _ λ m _. Ensures-ok _ λ a q after. inl after
  admits_invited (Effect.remove_principal target event true) later may =
      Ensures-bind _ _
        λ m _. Ensures-ok _ λ a q after. inl (ground (arith, get-remove target a s.principals))
  admits_invited (Effect.revoke target) later allowed =
      Ensures-bind _ _ λ _ _. Ensures-ok _ λ a q after. inl after
  admits_invited _ later allowed = Ensures-ok _ λ a q after. inl after

-- On a live ledger an accepted event changes the key of no principal that it leaves in the set.
pub apply-KeepsKeys :
    (c : Crypto) (g : Gate) (s t : LedgerState) (event : Bytes)
    → IsLive s
    → apply c g s event ≡ ok t
    → (a : ℕ) (p q : Principal) → get a s.principals ≡ some p
    → get a t.principals ≡ some q
    → q.active_key ≡ p.active_key
apply-KeepsKeys c g s t event live h =
    ((apply-Advance s (KeepsKeys s) (λ id u _ k. k) (keeps_keys s live) c g event live).holds t
      h).holds

-- On a live ledger, a principal that an accepted event leaves in the set was there before with the
-- same role and key, or has the role and the key of an invitation that named it, which was open before
-- the event and is accepted after it.
pub apply-AdmitsInvited :
    (c : Crypto) (g : Gate) (s t : LedgerState) (event : Bytes)
    → IsLive s
    → apply c g s event ≡ ok t
    → (a : ℕ) (q : Principal) → get a t.principals ≡ some q
    → (get a s.principals ≡ some q) ⊎ Admitted s t a q
apply-AdmitsInvited c g s t event live h =
    ((apply-Advance s (AdmitsInvited s) (λ id u _ k a q after. again a q (k a q after))
        (admits_invited s live) c g event live).holds
      t h).holds
  where
    again :
        {u : LedgerState} {h' : Option Head} (a : ℕ) (q : Principal)
        → (get a s.principals ≡ some q) ⊎ Admitted s u a q
        → (get a s.principals ≡ some q) ⊎ Admitted s (record u { head = h' }) a q
    again a q (inl e) = inl e
    again a q (inr m) = inr (record {
      event = m.event;
      invitation = m.invitation;
      held = m.held;
      was_open = m.was_open;
      invitee = m.invitee;
      principal = m.principal;
      consumed = m.consumed;
    })

apply-KeepsRoot :
    (c : Crypto) (g : Gate) (s t : LedgerState) (event : Bytes)
    → IsLive s
    → apply c g s event ≡ ok t
    → KeepsRoot s 0 t
apply-KeepsRoot c g s t event live h =
    ((apply-Advance s (λ _. KeepsRoot s 0)
        (λ id u _ k. record { ledger = k.ledger; root = k.root; declared_kind = k.declared_kind })
        (λ seq id effect later allowed. keeps_root_at seq id effect later allowed) c g event
        live).holds
      t h).holds
  where
    keeps_root_at :
        (seq id : ℕ) (effect : Effect)
        → is_seed effect ≡ false
        → Allowed id s effect
        → Ensures (KeepsRoot s 0) (commit_effect seq id effect s)
    keeps_root_at seq id effect later allowed = record {
      holds = λ u e.
          let k = (keeps_root s live seq id effect later allowed).holds u e in
          record { ledger = k.ledger; root = k.root; declared_kind = k.declared_kind };
    }

Run-KeepsRoot :
    (c : Crypto) (g : Gate) {s t : LedgerState} {events : List Bytes}
    → Run c g s events t
    → IsLive s
    → KeepsRoot s 0 t × IsLive t
Run-KeepsRoot c g done live = (record { ledger = refl; root = refl; declared_kind = refl }, live)
Run-KeepsRoot c g (next {s = s} {u = u} {event = event} e r) live =
    let first = apply-KeepsRoot c g s u event live e in
    let (later, end) = Run-KeepsRoot c g r (apply-IsLive c g event s u (inr live) e) in
    (
      record {
        ledger = later.ledger ∙ first.ledger;
        root = later.root ∙ first.root;
        declared_kind = later.declared_kind ∙ first.declared_kind;
      },
      end,
    )

-- From a live ledger with a raw root, whatever events are accepted, the ledger keeps its id, its
-- root and its declared kind, and its own identity stays a controller with the key of the root.
pub Run-keeps_raw_root :
    (c : Crypto) (g : Gate) (s t : LedgerState) (events : List Bytes) (l key commitment : ℕ)
    → IsLive s
    → s.ledger ≡ some l
    → s.root ≡ some (LedgerRoot.raw key commitment)
    → Run c g s events t
    → (t.ledger ≡ some l)
      × (t.root ≡ some (LedgerRoot.raw key commitment))
      × (t.declared_kind ≡ s.declared_kind)
      × (get l t.principals ≡ some (controller_with key))
Run-keeps_raw_root c g s t events l key commitment live named rooted r =
    let (k, end) = Run-KeepsRoot c g r live in
    let named' = k.ledger ∙ named in
    let rooted' = k.root ∙ rooted in
    (
      named',
      rooted',
      k.declared_kind,
      end.sound.members.root_held.at l key commitment named' rooted',
    )
