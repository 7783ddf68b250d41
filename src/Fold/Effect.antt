-- ===== src/Fold/Effect.antt =====
-- `Effect`, `Seed` and `commit` of crates/mabel-core/src/fold.rs: what a checked event changes, and
-- the one place where the fold changes its state.
use mabel.Base.{ℕ, Bool, Option, none, some, List, if◌then◌else◌}
use mabel.Base.Bytes.{Bytes}
use mabel.Base.Map.{Map, get, insert, remove}
use mabel.Proto.{DeclaredKind}
use mabel.Fold.Reason.{InvitationStatus, Outcome, ok, ◌>>=◌, expect}
use mabel.Fold.State.{LedgerRoot, Principal, SigningPrincipal, Invitation, LedgerState}

pub data Effect : Type 0 where
  seed : DeclaredKind → LedgerRoot → Map Principal → Effect
  witness_endpoints : List ℕ → Effect
  witness_set : List ℕ → SigningPrincipal → Effect
  endpoints : List ℕ → SigningPrincipal → Effect
  attest : (subject : ℕ) → SigningPrincipal → Effect
  revoke : (target : ℕ) → Effect
  invite : Invitation → Effect
  admit : (invitation invitee : ℕ) → Principal → Effect
  remove_principal : (target : ℕ) → Option ℕ → Bool → Effect
  set_profile : Option Bytes → Option Bytes → Option Bytes → SigningPrincipal → Effect

-- `invitations.get_mut(&event).expect(…).status = status`.
unfoldable pub set_status : ℕ → InvitationStatus → Map Invitation → Outcome (Map Invitation)
set_status event status m = do
  i ← expect (get event m)
  ok (insert event (record i { status = status }) m)

-- `if let Some(invitation) = invitation { … }` of a removal.
unfoldable pub cancel : Option ℕ → Map Invitation → Outcome (Map Invitation)
unfolding set_status
cancel none m = ok m
cancel (some event) m = set_status event InvitationStatus.cancelled m

-- The match of `commit` on the effect of event `id` at position `seq`.
unfoldable pub commit_effect : ℕ → ℕ → Effect → LedgerState → Outcome LedgerState
commit_effect seq id (Effect.seed kind root principals) s = ok (record s {
  declared_kind = some kind;
  root = some root;
  ledger = some id;
  principals = principals;
})
commit_effect seq id (Effect.witness_endpoints keys) s = ok (record s { witness_endpoints = keys })
commit_effect seq id (Effect.witness_set witnesses signer) s = ok (record s {
  witness_set =
      some (record { witnesses = witnesses; signing_principal = signer; event = id; seq = seq });
})
commit_effect seq id (Effect.endpoints keys signer) s = ok (record s {
  endpoint_advertisement =
      some (record { endpoints = keys; signing_principal = signer; event = id; seq = seq });
})
commit_effect seq id (Effect.attest subject signer) s = ok (record s {
  trust =
      insert id (record { subject = subject; signing_principal = signer; revoked_by = none })
        s.trust;
})
commit_effect seq id (Effect.revoke target) s = do
  a ← expect (get target s.trust)
  ok (record s { trust = insert target (record a { revoked_by = some id }) s.trust })
commit_effect seq id (Effect.invite i) s = ok (record s { invitations = insert id i s.invitations })
commit_effect seq id (Effect.admit event invitee p) s = do
  m ← set_status event InvitationStatus.accepted s.invitations
  ok (record s { invitations = m; principals = insert invitee p s.principals })
commit_effect seq id (Effect.remove_principal target event was_principal) s = do
  m ← cancel event s.invitations
  ok (record s {
    invitations = m;
    principals = if was_principal then remove target s.principals else s.principals;
  })
commit_effect seq id (Effect.set_profile display_name hostname email signer) s = ok (record s {
  profile = some (record {
    display_name = display_name;
    hostname = hostname;
    email = email;
    signing_principal = signer;
    event = id;
    seq = seq;
  });
})

-- Applies a checked event, and makes it the head.
unfoldable pub commit : ℕ → ℕ → ℕ → Effect → LedgerState → Outcome LedgerState
commit seq id timestamp_ms effect s = do
  t ← commit_effect seq id effect s
  ok (record t { head = some (record { seq = seq; event_id = id; timestamp_ms = timestamp_ms }) })
