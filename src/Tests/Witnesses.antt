-- ===== src/Tests/Witnesses.antt =====
-- The theorems at concrete ledgers: the events of the fixture, folded, forked and refused, and a byte
-- string that the validator of crates/mabel-core/src/validate.rs reads.
use mabel.Base.{ℕ, ◌≡◌, ◌≢◌, ◌⊎◌, ◌↔◌, refl, some, none, inl, inr, [], ◌∷◌, arith}
use mabel.Base.Bytes.{be_value}
use mabel.Base.Map.{get, insert, find}
use mabel.Proto
use mabel.Proto.{Role, Payload, declared_kind_of, role_of}
use mabel.Crypto.{from_slice, hash, event_id, event_id_domain, sign_input}
use mabel.Fold.Reason.{InvitationStatus, Reason, ok, ◌>>=◌}
use mabel.Fold.State.{
  LedgerRoot, Invitation, empty, is_revoked, next_seq, signing_principal, unrevoked,
  open_invitation_of,
}
use mabel.Fold.Effect.{set_status, commit_effect, commit}
use mabel.Fold.Checks.{
  identity, refuse_found, check_attestation, check_revocation, check_lowering, public_key,
  seed_root, seed_from_inception, check_invitation, check_admission, check_acceptance,
}
use mabel.Fold.Apply.{
  pass, check_position, check_chain, check_signer, verify, check_semantics, apply, fold_from, fold,
}
use mabel.Fold.Rules.{controller_with}
use mabel.Fold.Consent.{Answers, Joined, apply-Answers}
use mabel.Fold.Controllers.{Signs, signing_principal-Signs, signing_principal-none}
use mabel.Fold.Sound.{IsLive, IsWellFormed}
use mabel.Fold.Invariant.{apply-IsLive}
use mabel.Fold.Runs.{Run, done, next, Reports, fold-IsWellFormed, fold_from-Reports}
use mabel.Fold.Authority.{Endorsed, apply-Endorsed}
use mabel.Fold.Membership.{Admitted, apply-AdmitsInvited, apply-KeepsKeys, Run-keeps_raw_root}
use mabel.Fold.TrustHistory.{KeptAttestation, apply-KeepsTrust}
use mabel.Fold.InvitationHistory.{KeptInvitation, apply-KeepsInvitations}
use mabel.Fork
use mabel.Fork.{Verdict, verify_at, validate_fork_record}
use mabel.Fork.Evidence.{
  IsFork, Equivocation, validate_fork_record_iff, validate_fork_record-Equivocation,
}
use mabel.Validate.Error.{spent}
use mabel.Validate.Schema
use mabel.Validate.Message.{message, verify_inception_standalone}
use mabel.Validate.Ends.{message_ends}
use mabel.Tests.Fixture.{
  sig64, body, acceptance, toy, table, incepted, attested, invited, admitted, revoked,
}

-- The five events of the table are accepted; the fourth and the fifth compete for one position.
apply_1 : apply toy table empty (1 ∷ []) ≡ ok incepted
unfolding apply pass ◌>>=◌ next_seq event_id hash event_id_domain check_chain check_position
    public_key from_slice be_value check_signer verify sign_input check_semantics insert commit
    commit_effect identity signing_principal find seed_from_inception seed_root declared_kind_of
apply_1 = refl

apply_2 : apply toy table incepted (2 ∷ []) ≡ ok attested
unfolding apply pass ◌>>=◌ next_seq event_id hash event_id_domain check_chain check_position
    public_key from_slice be_value check_signer verify sign_input check_semantics insert commit
    commit_effect identity signing_principal find seed_from_inception seed_root declared_kind_of
    check_attestation refuse_found unrevoked is_revoked
apply_2 = refl

apply_3 : apply toy table attested (3 ∷ []) ≡ ok invited
unfolding apply pass ◌>>=◌ next_seq event_id hash event_id_domain check_chain check_position
    public_key from_slice be_value check_signer verify sign_input check_semantics insert commit
    commit_effect identity signing_principal find seed_from_inception seed_root declared_kind_of
    check_attestation refuse_found unrevoked is_revoked check_invitation role_of open_invitation_of
    get
apply_3 = refl

apply_4 : apply toy table invited (4 ∷ []) ≡ ok admitted
unfolding apply pass ◌>>=◌ next_seq event_id hash event_id_domain check_chain check_position
    public_key from_slice be_value check_signer verify sign_input check_semantics insert commit
    commit_effect identity signing_principal find seed_from_inception seed_root declared_kind_of
    check_attestation refuse_found unrevoked is_revoked check_invitation role_of open_invitation_of
    get check_acceptance check_admission check_lowering set_status
apply_4 = refl

apply_5 : apply toy table invited (5 ∷ []) ≡ ok revoked
unfolding apply pass ◌>>=◌ next_seq event_id hash event_id_domain check_chain check_position
    public_key from_slice be_value check_signer verify sign_input check_semantics insert commit
    commit_effect identity signing_principal find seed_from_inception seed_root declared_kind_of
    check_attestation refuse_found unrevoked is_revoked check_invitation role_of open_invitation_of
    get check_revocation
apply_5 = refl

incepted-IsLive : IsLive incepted
incepted-IsLive = apply-IsLive toy table (1 ∷ []) empty incepted (inl refl) apply_1

attested-IsLive : IsLive attested
attested-IsLive = apply-IsLive toy table (2 ∷ []) incepted attested (inr incepted-IsLive) apply_2

invited-IsLive : IsLive invited
invited-IsLive = apply-IsLive toy table (3 ∷ []) attested invited (inr attested-IsLive) apply_3

apply-IsLive_example : IsLive admitted
apply-IsLive_example = apply-IsLive toy table (4 ∷ []) invited admitted (inr invited-IsLive) apply_4

fold_5 :
    fold toy table ((1 ∷ []) ∷ (2 ∷ []) ∷ (3 ∷ []) ∷ (4 ∷ []) ∷ (2 ∷ []) ∷ [])
    ≡ some (admitted, some (record { seq = 4; reason = Reason.wrong_seq 4 1 }))
unfolding fold fold_from apply pass ◌>>=◌ next_seq event_id hash event_id_domain check_chain
    check_position public_key from_slice be_value check_signer verify sign_input check_semantics
    insert commit commit_effect identity signing_principal find seed_from_inception seed_root
    declared_kind_of check_attestation refuse_found unrevoked is_revoked check_invitation role_of
    open_invitation_of get check_acceptance check_admission check_lowering set_status
fold_5 = refl

fold-IsWellFormed_example : IsWellFormed admitted
fold-IsWellFormed_example =
    fold-IsWellFormed toy table ((1 ∷ []) ∷ (2 ∷ []) ∷ (3 ∷ []) ∷ (4 ∷ []) ∷ (2 ∷ []) ∷ []) admitted
      _ fold_5

fold_from_5 :
    fold_from toy table empty ((1 ∷ []) ∷ (2 ∷ []) ∷ (3 ∷ []) ∷ (4 ∷ []) ∷ (2 ∷ []) ∷ [])
    ≡ some (admitted, some (record { seq = 4; reason = Reason.wrong_seq 4 1 }))
unfolding fold
fold_from_5 = fold_5

fold_from-Reports_example :
    Reports toy table empty
      ((1 ∷ []) ∷ (2 ∷ []) ∷ (3 ∷ []) ∷ (4 ∷ []) ∷ (2 ∷ []) ∷ [])
      admitted
      (some (record { seq = 4; reason = Reason.wrong_seq 4 1 }))
fold_from-Reports_example =
    fold_from-Reports toy table empty ((1 ∷ []) ∷ (2 ∷ []) ∷ (3 ∷ []) ∷ (4 ∷ []) ∷ (2 ∷ []) ∷ [])
      admitted _ fold_from_5

two_events : Run toy table incepted ((2 ∷ []) ∷ (3 ∷ []) ∷ []) invited
two_events = next apply_2 (next apply_3 done)

apply-Endorsed_example : Endorsed toy table invited (4 ∷ []) admitted
apply-Endorsed_example = apply-Endorsed toy table invited admitted (4 ∷ []) invited-IsLive apply_4

member : get 7 admitted.principals ≡ some (record { role = Role.controller; active_key = 70 })
unfolding apply pass ◌>>=◌ next_seq event_id hash event_id_domain check_chain check_position
    public_key from_slice be_value check_signer verify sign_input check_semantics insert commit
    commit_effect identity signing_principal find seed_from_inception seed_root declared_kind_of
    check_attestation refuse_found unrevoked is_revoked check_invitation role_of open_invitation_of
    get check_acceptance check_admission check_lowering set_status
member = refl

founder : get 1 invited.principals ≡ some (record { role = Role.controller; active_key = 9 })
unfolding apply pass ◌>>=◌ next_seq event_id hash event_id_domain check_chain check_position
    public_key from_slice be_value check_signer verify sign_input check_semantics insert commit
    commit_effect identity signing_principal find seed_from_inception seed_root declared_kind_of
    check_attestation refuse_found unrevoked is_revoked check_invitation role_of open_invitation_of
    get check_acceptance check_admission check_lowering set_status
founder = refl

founder_after : get 1 admitted.principals ≡ some (record { role = Role.controller; active_key = 9 })
unfolding apply pass ◌>>=◌ next_seq event_id hash event_id_domain check_chain check_position
    public_key from_slice be_value check_signer verify sign_input check_semantics insert commit
    commit_effect identity signing_principal find seed_from_inception seed_root declared_kind_of
    check_attestation refuse_found unrevoked is_revoked check_invitation role_of open_invitation_of
    get check_acceptance check_admission check_lowering set_status
founder_after = refl

apply-AdmitsInvited_example :
    (get 7 invited.principals ≡ some (record { role = Role.controller; active_key = 70 }))
    ⊎ Admitted invited admitted 7 (record { role = Role.controller; active_key = 70 })
apply-AdmitsInvited_example =
    apply-AdmitsInvited toy table invited admitted (4 ∷ []) invited-IsLive apply_4 7 _ member

apply-KeepsKeys_example : (controller_with 9).active_key ≡ (controller_with 9).active_key
apply-KeepsKeys_example =
    apply-KeepsKeys toy table invited admitted (4 ∷ []) invited-IsLive apply_4 1 (controller_with 9)
      (controller_with 9) founder founder_after

incepted_ledger : incepted.ledger ≡ some 1
unfolding apply pass ◌>>=◌ next_seq event_id hash event_id_domain check_chain check_position
    public_key from_slice be_value check_signer verify sign_input check_semantics insert commit
    commit_effect identity signing_principal find seed_from_inception seed_root declared_kind_of
    check_attestation refuse_found unrevoked is_revoked check_invitation role_of open_invitation_of
    get check_acceptance check_admission check_lowering set_status
incepted_ledger = refl

incepted_root : incepted.root ≡ some (LedgerRoot.raw 9 8)
unfolding apply pass ◌>>=◌ next_seq event_id hash event_id_domain check_chain check_position
    public_key from_slice be_value check_signer verify sign_input check_semantics insert commit
    commit_effect identity signing_principal find seed_from_inception seed_root declared_kind_of
    check_attestation refuse_found unrevoked is_revoked check_invitation role_of open_invitation_of
    get check_acceptance check_admission check_lowering set_status
incepted_root = refl

Run-keeps_raw_root_example :
    (invited.ledger ≡ some 1)
    × (invited.root ≡ some (LedgerRoot.raw 9 8))
    × (invited.declared_kind ≡ incepted.declared_kind)
    × (get 1 invited.principals ≡ some (controller_with 9))
Run-keeps_raw_root_example =
    Run-keeps_raw_root toy table incepted invited ((2 ∷ []) ∷ (3 ∷ []) ∷ []) 1 9 8 incepted-IsLive
      incepted_ledger incepted_root two_events

revoked_head : revoked.head ≡ some (record { seq = 3; event_id = 5; timestamp_ms = 1003 })
unfolding apply pass ◌>>=◌ next_seq event_id hash event_id_domain check_chain check_position
    public_key from_slice be_value check_signer verify sign_input check_semantics insert commit
    commit_effect identity signing_principal find seed_from_inception seed_root declared_kind_of
    check_attestation refuse_found unrevoked is_revoked check_invitation role_of open_invitation_of
    get check_revocation
revoked_head = refl

attestation_2 :
    get 2 invited.trust
    ≡ some (record {
      subject = 50;
      signing_principal = record { identity = 1; key = 9 };
      revoked_by = none;
    })
unfolding apply pass ◌>>=◌ next_seq event_id hash event_id_domain check_chain check_position
    public_key from_slice be_value check_signer verify sign_input check_semantics insert commit
    commit_effect identity signing_principal find seed_from_inception seed_root declared_kind_of
    check_attestation refuse_found unrevoked is_revoked check_invitation role_of open_invitation_of
    get check_revocation
attestation_2 = refl

apply-KeepsTrust_example :
    KeptAttestation 5 2
      (record {
        subject = 50;
        signing_principal = record { identity = 1; key = 9 };
        revoked_by = none;
      })
      revoked
apply-KeepsTrust_example =
    apply-KeepsTrust toy table invited revoked (5 ∷ []) invited-IsLive apply_5 _ revoked_head 2 _
      (λ e. omega arith) attestation_2

admitted_head : admitted.head ≡ some (record { seq = 3; event_id = 4; timestamp_ms = 1003 })
unfolding apply pass ◌>>=◌ next_seq event_id hash event_id_domain check_chain check_position
    public_key from_slice be_value check_signer verify sign_input check_semantics insert commit
    commit_effect identity signing_principal find seed_from_inception seed_root declared_kind_of
    check_attestation refuse_found unrevoked is_revoked check_invitation role_of open_invitation_of
    get check_acceptance check_admission check_lowering set_status
admitted_head = refl

invitation_3 :
    get 3 invited.invitations
    ≡ some (record {
      invitee = 7;
      invitee_key = 70;
      role = Role.controller;
      status = InvitationStatus.opened;
    })
unfolding apply pass ◌>>=◌ next_seq event_id hash event_id_domain check_chain check_position
    public_key from_slice be_value check_signer verify sign_input check_semantics insert commit
    commit_effect identity signing_principal find seed_from_inception seed_root declared_kind_of
    check_attestation refuse_found unrevoked is_revoked check_invitation role_of open_invitation_of
    get check_acceptance check_admission check_lowering set_status
invitation_3 = refl

apply-KeepsInvitations_example :
    KeptInvitation 3
      (record {
        invitee = 7;
        invitee_key = 70;
        role = Role.controller;
        status = InvitationStatus.opened;
      })
      admitted
apply-KeepsInvitations_example =
    apply-KeepsInvitations toy table invited admitted (4 ∷ []) invited-IsLive apply_4 _
      admitted_head 3 _ (λ e. omega arith) invitation_3

apply-Answers_example :
    (blob : Proto.Acceptance) × (target : ℕ) × (i : Invitation) × (table.decode_acceptance []
      ≡ some blob)
    × Answers invited blob target i
    × Joined admitted target i
apply-Answers_example =
    apply-Answers toy table invited admitted (4 ∷ [])
      (record { body = 4 ∷ []; signature = sig64 9 }) (body 3 3 acceptance)
      (record { acceptance = []; signature = [] }) invited-IsLive apply_4 refl refl refl

fork_45 :
    validate_fork_record toy table invited (4 ∷ []) (5 ∷ [])
    ≡ Verdict.valid (record { ledger = 1; seq = 3; kept = 4; conflicting = 5 })
unfolding validate_fork_record verify_at Fork.◌>>=◌ check_revocation apply pass ◌>>=◌ next_seq
    event_id hash event_id_domain check_chain check_position public_key from_slice be_value
    check_signer verify sign_input check_semantics insert commit commit_effect identity
    signing_principal find seed_from_inception seed_root declared_kind_of check_attestation
    refuse_found unrevoked is_revoked check_invitation role_of open_invitation_of get
    check_acceptance check_admission check_lowering set_status
fork_45 = refl

validate_fork_record_iff_example :
    (validate_fork_record toy table invited (4 ∷ []) (5 ∷ [])
      ≡ Verdict.valid (record { ledger = 1; seq = 3; kept = 4; conflicting = 5 }))
    ↔ IsFork toy table invited
        (4 ∷ [])
        (5 ∷ [])
        (record { ledger = 1; seq = 3; kept = 4; conflicting = 5 })
validate_fork_record_iff_example =
    validate_fork_record_iff toy table invited (4 ∷ []) (5 ∷ [])
      (record { ledger = 1; seq = 3; kept = 4; conflicting = 5 })

validate_fork_record-Equivocation_example : Equivocation toy table invited (4 ∷ []) (5 ∷ [])
validate_fork_record-Equivocation_example =
    validate_fork_record-Equivocation toy table invited (4 ∷ []) (5 ∷ []) _ invited-IsLive fork_45

signer_9 : signing_principal invited 9 ≡ some (record { identity = 1; key = 9 })
unfolding apply pass ◌>>=◌ next_seq event_id hash event_id_domain check_chain check_position
    public_key from_slice be_value check_signer verify sign_input check_semantics insert commit
    commit_effect identity signing_principal find seed_from_inception seed_root declared_kind_of
    check_attestation refuse_found unrevoked is_revoked check_invitation role_of open_invitation_of
    get check_acceptance check_admission check_lowering set_status
signer_9 = refl

signer_70 : signing_principal invited 70 ≡ none
unfolding apply pass ◌>>=◌ next_seq event_id hash event_id_domain check_chain check_position
    public_key from_slice be_value check_signer verify sign_input check_semantics insert commit
    commit_effect identity signing_principal find seed_from_inception seed_root declared_kind_of
    check_attestation refuse_found unrevoked is_revoked check_invitation role_of open_invitation_of
    get check_acceptance check_admission check_lowering set_status
signer_70 = refl

signing_principal-Signs_example : Signs invited.principals 9 (record { identity = 1; key = 9 })
signing_principal-Signs_example =
    signing_principal-Signs invited 9 _ invited-IsLive.sound.members.principals_ordered signer_9

signing_principal-none_example : (controller_with 9).active_key ≢ 70
signing_principal-none_example =
    signing_principal-none invited 70 1 (controller_with 9) signer_70 founder refl

message_ends_example :
    (message toy Schema.signed_event (10 ∷ 1 ∷ 0 ∷ []) ≢ spent)
    × (verify_inception_standalone toy (10 ∷ 1 ∷ 0 ∷ []) ≢ spent)
message_ends_example = message_ends toy Schema.signed_event (10 ∷ 1 ∷ 0 ∷ [])
