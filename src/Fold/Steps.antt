-- ===== src/Fold/Steps.antt =====
-- A rule for what one accepted event does to a live ledger: crates/mabel-core/src/fold.rs, `apply`.
use mabel.Base.{ℕ, false, ◌≡◌, Option, some, refl, ◌∙◌}
use mabel.Base.Bytes.{Bytes}
use mabel.Crypto.{Crypto, event_id}
use mabel.Fold.Reason.{Ensures, Ensures-bind, Ensures-ok}
use mabel.Fold.State.{Head, LedgerState, next_seq}
use mabel.Fold.Effect.{Effect, commit_effect, commit}
use mabel.Fold.Rules.{Allowed, check_semantics-Allowed}
use mabel.Fold.Apply.{Gate, apply}
use mabel.Fold.Shape.{is_seed, check_semantics-IsSeed, check_position-is_inception, next_seq-headed}
use mabel.Fold.Accepted.{apply-Accepted}
use mabel.Fold.Sound.{IsLive}

-- The new head, and a property of the new state that may name the event's id.
pub record Advance (P : ℕ → LedgerState → Type 0) (seq : ℕ) (t : LedgerState) : Type 0 where
  pub head : Head
  pub at_head : t.head ≡ some head
  pub at_seq : head.seq ≡ seq
  pub holds : P head.event_id t

pub head_injective : {h k : Head} → some h ≡ some k → h ≡ k
head_injective e = cc

module _ (s : LedgerState) (P : ℕ → LedgerState → Type 0)
    (keep : (id : ℕ) (u : LedgerState) (h : Option Head) → P id u → P id (record u { head = h }))
    (each : (seq id : ℕ) (effect : Effect)
      → is_seed effect ≡ false
      → Allowed id s effect
      → Ensures (P id) (commit_effect seq id effect s)) where
  commit-Advance :
      (seq id timestamp_ms : ℕ) (effect : Effect)
      → is_seed effect ≡ false
      → Allowed id s effect
      → Ensures (Advance P seq) (commit seq id timestamp_ms effect s)
  unfolding commit
  commit-Advance seq id timestamp_ms effect later allowed = Ensures-bind _ _ λ u done.
      Ensures-ok _ (record {
        head = record { seq = seq; event_id = id; timestamp_ms = timestamp_ms };
        at_head = refl;
        at_seq = refl;
        holds = keep id u _ ((each seq id effect later allowed).holds u done);
      })

  -- What every allowed effect establishes, an accepted event on a live ledger establishes.
  pub apply-Advance :
      (c : Crypto) (g : Gate) (event : Bytes)
      → IsLive s
      → Ensures (Advance P (next_seq s)) (apply c g s event)
  apply-Advance c g event live = record {
    holds = λ t h.
        let a = (apply-Accepted c g s event).holds t h in
        let id = event_id c a.signed.body in
        let seeds = (check_semantics-IsSeed c s g id a.payload a.signer).holds a.effect a.checked in
        let later =
          check_position-is_inception (next_seq s) a.payload a.placed
          ∙ next_seq-headed s live.headed in
        let allowed =
          (check_semantics-Allowed id s c g a.payload a.signer).holds a.effect a.checked in
        (commit-Advance (next_seq s) id a.body.timestamp_ms a.effect (seeds ∙ later) allowed).holds
          t a.committed;
  }
