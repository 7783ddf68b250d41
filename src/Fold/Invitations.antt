-- ===== src/Fold/Invitations.antt =====
-- The invitations of crates/mabel-core/src/fold.rs under `commit`: the open ones of an invitee, and the
-- keys that they carry.
use mabel.Base.{ℕ, true, false, ◌≡◌, Option, none, some, refl, ap, arith, Option-cases, inl, inr}
use mabel.Base.Map.{Map, get, insert, remove, IsOrdered}
use mabel.Base.MapLaws.{get-insert, get-remove, find-none, insert-IsOrdered}
use mabel.Fold.Reason.{InvitationStatus, ok, ◌>>=◌, or_else}
use mabel.Fold.State.{Principal, Invitation, LedgerState, is_open, invites, open_invitation_of}
use mabel.Fold.Effect.{set_status, cancel}

pub record OneOpen (m : Map Invitation) : Type 0 where
  pub at :
      (e f : ℕ) (i j : Invitation)
      → get e m ≡ some i
      → get f m ≡ some j
      → is_open i.status ≡ true
      → is_open j.status ≡ true
      → i.invitee ≡ j.invitee
      → e ≡ f

pub record OpenKeys (m : Map Invitation) (ps : Map Principal) : Type 0 where
  pub at :
      (e : ℕ) (i : Invitation) (p : Principal)
      → get e m ≡ some i
      → is_open i.status ≡ true
      → get i.invitee ps ≡ some p
      → p.active_key ≡ i.invitee_key

-- What closing an open invitation does to the map.
pub record Closes (event : ℕ) (status : InvitationStatus) (m m' : Map Invitation) : Type 0 where
  pub before : Invitation
  pub held : get event m ≡ some before
  pub after : m' ≡ insert event (record before { status = status }) m

pub set_status-Closes :
    (event : ℕ) (status : InvitationStatus) (m m' : Map Invitation)
    → set_status event status m ≡ ok m'
    → Closes event status m m'
unfolding set_status ◌>>=◌
set_status-Closes event status m m' h = elim (Option-cases (get event m)) [
  | inl missing ↦ absurd (ground (arith, missing))
  | inr (i, found) ↦ record { before = i; held = found; after = ground (arith, found) }
]

pub set_status-eq :
    (event : ℕ) (status : InvitationStatus) (i : Invitation) (m m' : Map Invitation)
    → get event m ≡ some i
    → set_status event status m ≡ ok m'
    → m' ≡ insert event (record i { status = status }) m
unfolding set_status ◌>>=◌
set_status-eq event status i m m' found h = ground (arith, found)

module _ (event : ℕ) (status : InvitationStatus) (m : Map Invitation) (i : Invitation) where
  pub OneOpen-close :
      is_open status ≡ false → OneOpen m → OneOpen (insert event (record i { status = status }) m)
  OneOpen-close closed h = record {
    at = λ e f j k ej ek oj ok same. ground (
      arith,
      get-insert event e (record i { status = status }) m,
      get-insert event f (record i { status = status }) m,
      h.at e f j k,
    );
  }

  pub OpenKeys-close :
      (ps : Map Principal)
      → is_open status ≡ false
      → OpenKeys m ps
      → OpenKeys (insert event (record i { status = status }) m) ps
  OpenKeys-close ps closed h = record {
    at = λ e j p ej oj held.
        ground (arith, get-insert event e (record i { status = status }) m, h.at e j p);
  }

  -- Admitting the invitee with the key of the invitation.
  pub OpenKeys-admit :
      (p : Principal) (ps : Map Principal)
      → get event m ≡ some i
      → is_open i.status ≡ true
      → is_open status ≡ false
      → OneOpen m
      → OpenKeys m ps
      → OpenKeys (insert event (record i { status = status }) m) (insert i.invitee p ps)
  OpenKeys-admit p ps found opened closed one h = record {
    at = λ e j q ej oj held. ground (
      arith,
      get-insert event e (record i { status = status }) m,
      get-insert i.invitee j.invitee p ps,
      h.at e j q,
      one.at e event j i,
    );
  }

pub OpenKeys-remove :
    (target : ℕ) (m : Map Invitation) (ps : Map Principal)
    → OpenKeys m ps
    → OpenKeys m (remove target ps)
OpenKeys-remove target m ps h = record {
  at = λ e j q ej oj held. ground (arith, get-remove target j.invitee ps, h.at e j q);
}

module _ (s : LedgerState) (event : ℕ) (i : Invitation) where
  pub OneOpen-invite :
      open_invitation_of s i.invitee ≡ none
      → OneOpen s.invitations
      → OneOpen (insert event i s.invitations)
  unfolding open_invitation_of
  OneOpen-invite free h = record {
    at = λ e f j k ej ek oj ok same. ground (
      arith,
      get-insert event e i s.invitations,
      get-insert event f i s.invitations,
      h.at e f j k,
      find-none (invites i.invitee) e j s.invitations free,
      find-none (invites i.invitee) f k s.invitations free,
    );
  }

  pub OpenKeys-invite :
      ((p : Principal) → get i.invitee s.principals ≡ some p → p.active_key ≡ i.invitee_key)
      → OpenKeys s.invitations s.principals
      → OpenKeys (insert event i s.invitations) s.principals
  OpenKeys-invite keeps h = record {
    at =
        λ e j q ej oj held. ground (arith, get-insert event e i s.invitations, h.at e j q, keeps q);
  }

-- What the invitations keep when a removal cancels one.
pub record Cancels (m' : Map Invitation) (ps : Map Principal) : Type 0 where
  pub ordered : IsOrdered m'
  pub one_open : OneOpen m'
  pub open_keys : OpenKeys m' ps

pub cancel-Cancels :
    (event : Option ℕ) (m m' : Map Invitation) (ps : Map Principal)
    → cancel event m ≡ ok m'
    → Cancels m ps
    → Cancels m' ps
unfolding cancel
cancel-Cancels none m m' ps h v = rw (← ap (or_else m) h) v
cancel-Cancels (some event) m m' ps h v =
    let c = set_status-Closes event InvitationStatus.cancelled m m' h in
    rw c.after (record {
      ordered = insert-IsOrdered event _ m v.ordered;
      one_open = OneOpen-close event InvitationStatus.cancelled m c.before refl v.one_open;
      open_keys = OpenKeys-close event InvitationStatus.cancelled m c.before ps refl v.open_keys;
    })
