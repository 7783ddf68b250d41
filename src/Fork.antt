-- ===== src/Fork.antt =====
-- Fork records: crates/mabel-core/src/fork.rs, `validate_fork_record` and `verify_at`.
pub mod Evidence
use mabel.Base.{ℕ, String, Bool, true, false, Option, none, some, ◌==◌, if◌then◌else◌}
use mabel.Base.Bytes.{Bytes}
use mabel.Crypto.{Crypto}
use mabel.Fold.Reason.{Violation, ok, err, panic}
use mabel.Fold.State.{Head, LedgerState, next_seq}
use mabel.Fold.Apply.{Gate, apply}

pub record Fork : Type 0 where
  pub ledger : ℕ
  pub seq : ℕ
  pub kept : ℕ
  pub conflicting : ℕ

pub data ForkError : Type 0 where
  empty_prefix : ForkError
  kept : Violation → ForkError
  conflicting : Violation → ForkError
  same_event : ℕ → ForkError

-- A stable snake-case name for this rejection class.
pub code : ForkError → String
code ForkError.empty_prefix = "empty_prefix"
code (ForkError.kept _) = "kept_invalid"
code (ForkError.conflicting _) = "conflicting_invalid"
code (ForkError.same_event _) = "same_event"

-- `Result<A, E>` of a function that may panic.
pub data Verdict (A E : Type 0) : Type 0 where
  valid : A → Verdict A E
  invalid : E → Verdict A E
  panicked : Verdict A E

module _ {A B E : Type 0} where
  infixl 5 ◌>>=◌
  unfoldable pub ◌>>=◌ : Verdict A E → (A → Verdict B E) → Verdict B E
  Verdict.valid a >>= f = f a
  Verdict.invalid e >>= f = Verdict.invalid e
  Verdict.panicked >>= f = Verdict.panicked

-- `result.map_err(wrap)`.
abbrev pub map_err : {A E F : Type 0} → (E → F) → Verdict A E → Verdict A F
map_err wrap (Verdict.valid a) = Verdict.valid a
map_err wrap (Verdict.invalid e) = Verdict.invalid (wrap e)
map_err wrap Verdict.panicked = Verdict.panicked

abbrev head_id : {E : Type 0} → Option Head → Verdict ℕ E
head_id none = Verdict.panicked
head_id (some h) = Verdict.valid h.event_id

-- `prefix.ledger().ok_or(ForkError::EmptyPrefix)`.
abbrev or_empty : Option ℕ → Verdict ℕ ForkError
or_empty none = Verdict.invalid ForkError.empty_prefix
or_empty (some l) = Verdict.valid l

module _ (c : Crypto) (g : Gate) where
  -- Applies one event to a copy of the prefix and returns its id.
  unfoldable pub verify_at : LedgerState → ℕ → Bytes → Verdict ℕ Violation
  verify_at prefix seq event = elim (apply c g prefix event) [
    | ok t ↦ head_id t.head
    | err reason ↦ Verdict.invalid (record { seq = seq; reason = reason })
    | panic ↦ Verdict.panicked
  ]

  unfoldable pub validate_fork_record :
      LedgerState → (kept_event conflicting_event : Bytes) → Verdict Fork ForkError
  unfolding ◌>>=◌
  validate_fork_record prefix kept_event conflicting_event = do
    ledger ← or_empty prefix.ledger
    let seq = next_seq prefix
    kept_id ← map_err ForkError.kept (verify_at prefix seq kept_event)
    conflicting_id ← map_err ForkError.conflicting (verify_at prefix seq conflicting_event)
    if kept_id == conflicting_id
        then Verdict.invalid (ForkError.same_event kept_id)
        else Verdict.valid
            (record { ledger = ledger; seq = seq; kept = kept_id; conflicting = conflicting_id })
