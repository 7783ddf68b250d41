-- ===== src/Fork/Evidence.antt =====
-- Fork records and the events that they name: crates/mabel-core/src/fork.rs.
use mabel.Base.{ℕ, ◌≡◌, ◌≢◌, ◌↔◌, ◌⊎◌, some, refl, arith, inl, inr, Option-cases}
use mabel.Base.Bytes.{Bytes}
use mabel.Crypto.{Crypto, event_id, from_slice}
use mabel.Fold.Reason.{ok, Outcome-cases}
use mabel.Fold.State.{Head, LedgerState, next_seq}
use mabel.Fold.Apply.{Gate, apply}
use mabel.Fold.Sound.{IsLive}
use mabel.Fold.Authority.{Endorsed, apply-Endorsed}
use mabel.Fork.{Fork, Verdict, verify_at, validate_fork_record}

module _ (c : Crypto) (g : Gate) where
  -- The event is accepted on the prefix, and `id` is its id.
  pub record Accepts (prefix : LedgerState) (event : Bytes) (id : ℕ) : Type 0 where
    pub after : LedgerState
    pub head : Head
    pub applied : apply c g prefix event ≡ ok after
    pub at_head : after.head ≡ some head
    pub named : head.event_id ≡ id

  verify_at-Accepts :
      (prefix : LedgerState) (seq : ℕ) (event : Bytes) (id : ℕ)
      → verify_at c g prefix seq event ≡ Verdict.valid id
      → Accepts prefix event id
  unfolding verify_at
  verify_at-Accepts prefix seq event id h = elim (Outcome-cases (apply c g prefix event)) [
    | inl (t, applied) ↦ elim (Option-cases t.head) [
      | inl missing ↦ absurd (ground (arith, applied, missing))
      | inr (head, held) ↦ record {
        after = t;
        head = head;
        applied = applied;
        at_head = held;
        named = ground (arith, applied, held);
      }
    ]
    | inr (inl (r, refused)) ↦ absurd (ground (arith, refused))
    | inr (inr stuck) ↦ absurd (ground (arith, stuck))
  ]

  Accepts-verify_at :
      (prefix : LedgerState) (seq : ℕ) (event : Bytes) (id : ℕ)
      → Accepts prefix event id
      → verify_at c g prefix seq event ≡ Verdict.valid id
  unfolding verify_at
  Accepts-verify_at prefix seq event id a = ground (arith, a.applied, a.at_head, a.named)

  -- Two distinct events, both accepted at the position after the prefix.
  pub record IsFork (prefix : LedgerState) (kept conflicting : Bytes) (f : Fork) : Type 0 where
    pub ledger : prefix.ledger ≡ some f.ledger
    pub seq : f.seq ≡ next_seq prefix
    pub kept_accepted : Accepts prefix kept f.kept
    pub conflicting_accepted : Accepts prefix conflicting f.conflicting
    pub distinct : f.kept ≢ f.conflicting

  Verdict-cases :
      {A E : Type 0} (v : Verdict A E)
      → ((a : A) × (v ≡ Verdict.valid a))
        ⊎ (((e : E) × (v ≡ Verdict.invalid e)) ⊎ (v ≡ Verdict.panicked))
  Verdict-cases (Verdict.valid a) = inl (a, refl)
  Verdict-cases (Verdict.invalid e) = inr (inl (e, refl))
  Verdict-cases Verdict.panicked = inr (inr refl)

  validate_fork_record-IsFork :
      (prefix : LedgerState) (kept conflicting : Bytes) (f : Fork)
      → validate_fork_record c g prefix kept conflicting ≡ Verdict.valid f
      → IsFork prefix kept conflicting f
  unfolding validate_fork_record
  validate_fork_record-IsFork prefix kept conflicting f h =
      let seq = next_seq prefix in
      elim (Option-cases prefix.ledger) [
        | inl missing ↦ absurd (ground (arith, missing))
        | inr (l, named) ↦ elim (Verdict-cases (verify_at c g prefix seq kept)) [
          | inr (inl (v, e)) ↦ absurd (ground (arith, named, e))
          | inr (inr e) ↦ absurd (ground (arith, named, e))
          | inl (k, ek) ↦ elim (Verdict-cases (verify_at c g prefix seq conflicting)) [
            | inr (inl (v, e)) ↦ absurd (ground (arith, named, ek, e))
            | inr (inr e) ↦ absurd (ground (arith, named, ek, e))
            | inl (d, ed) ↦ record {
              ledger = ground (arith, named, ek, ed);
              seq = ground (arith, named, ek, ed);
              kept_accepted =
                  verify_at-Accepts prefix seq kept f.kept (ground (arith, named, ek, ed));
              conflicting_accepted =
                  verify_at-Accepts prefix seq conflicting f.conflicting
                    (ground (arith, named, ek, ed));
              distinct = λ same. ground (arith, named, ek, ed);
            }
          ]
        ]
      ]

  -- `validate_fork_record` returns the fork `f` exactly when the prefix has a ledger and both events
  -- are accepted on the prefix under two distinct ids, which `f` names with the ledger and the
  -- position after the prefix.
  pub validate_fork_record_iff :
      (prefix : LedgerState) (kept conflicting : Bytes) (f : Fork)
      → (validate_fork_record c g prefix kept conflicting ≡ Verdict.valid f)
        ↔ IsFork prefix kept conflicting f
  unfolding validate_fork_record
  validate_fork_record_iff prefix kept conflicting f = (
    validate_fork_record-IsFork prefix kept conflicting f,
    λ e. ground (
      arith,
      e.ledger,
      e.seq,
      e.distinct,
      Accepts-verify_at prefix (next_seq prefix) kept f.kept e.kept_accepted,
      Accepts-verify_at prefix (next_seq prefix) conflicting f.conflicting e.conflicting_accepted,
    ),
  )

  -- Two events of one position, each signed by a controller of the prefix.
  pub record Equivocation (prefix : LedgerState) (kept conflicting : Bytes) : Type 0 where
    pub kept_after : LedgerState
    pub conflicting_after : LedgerState
    pub kept_endorsed : Endorsed c g prefix kept kept_after
    pub conflicting_endorsed : Endorsed c g prefix conflicting conflicting_after
    pub same_seq : kept_endorsed.body.seq ≡ conflicting_endorsed.body.seq
    pub same_prev : from_slice kept_endorsed.body.prev ≡ from_slice conflicting_endorsed.body.prev
    pub other_body :
        event_id c kept_endorsed.signed.body ≢ event_id c conflicting_endorsed.signed.body

  Accepts-Equivocation :
      (prefix : LedgerState) (kept conflicting : Bytes) {i j : ℕ} (a : Accepts prefix kept i)
      (b : Accepts prefix conflicting j)
      → i ≢ j
      → Endorsed c g prefix kept a.after
      → Endorsed c g prefix conflicting b.after
      → Equivocation prefix kept conflicting
  Accepts-Equivocation prefix kept conflicting a b distinct k d = record {
    kept_after = a.after;
    conflicting_after = b.after;
    kept_endorsed = k;
    conflicting_endorsed = d;
    same_seq = ground arith;
    same_prev = ground arith;
    other_body = λ same. ground arith;
  }

  -- The two events of a validated fork record on a live prefix have one position and one previous
  -- event, and each is signed by a controller of the prefix: the fork is equivocation by those who
  -- may sign.
  pub validate_fork_record-Equivocation :
      (prefix : LedgerState) (kept conflicting : Bytes) (f : Fork)
      → IsLive prefix
      → validate_fork_record c g prefix kept conflicting ≡ Verdict.valid f
      → Equivocation prefix kept conflicting
  validate_fork_record-Equivocation prefix kept conflicting f live h =
      let v = validate_fork_record-IsFork prefix kept conflicting f h in
      let a = v.kept_accepted in
      let b = v.conflicting_accepted in
      Accepts-Equivocation prefix kept conflicting a b v.distinct
        (apply-Endorsed c g prefix a.after kept live a.applied)
        (apply-Endorsed c g prefix b.after conflicting live b.applied)
