-- ===== src/Fold/Trust.antt =====
-- The attestations of crates/mabel-core/src/fold.rs under `commit`: the unrevoked ones of a subject, and
-- those of the ledger itself.
use mabel.Base.{ℕ, ◌≡◌, ◌≢◌, Option, none, some, arith}
use mabel.Base.Map.{Map, get, insert}
use mabel.Base.MapLaws.{get-insert, find-none}
use mabel.Fold.State.{Attestation, LedgerState, attests_to, unrevoked}

pub record OneTrust (m : Map Attestation) : Type 0 where
  pub at :
      (e f : ℕ) (a b : Attestation)
      → get e m ≡ some a
      → get f m ≡ some b
      → a.revoked_by ≡ none
      → b.revoked_by ≡ none
      → a.subject ≡ b.subject
      → e ≡ f

pub record NoSelf (ledger : Option ℕ) (m : Map Attestation) : Type 0 where
  pub at : (e : ℕ) (a : Attestation) → get e m ≡ some a → ledger ≢ some a.subject

module _ (s : LedgerState) (event : ℕ) (a : Attestation) where
  pub OneTrust-attest :
      unrevoked s a.subject ≡ none → OneTrust s.trust → OneTrust (insert event a s.trust)
  unfolding unrevoked
  OneTrust-attest free h = record {
    at = λ e f b d eb ed ub ud same. ground (
      arith,
      get-insert event e a s.trust,
      get-insert event f a s.trust,
      h.at e f b d,
      find-none (attests_to a.subject) e b s.trust free,
      find-none (attests_to a.subject) f d s.trust free,
    );
  }

  pub NoSelf-insert :
      s.ledger ≢ some a.subject → NoSelf s.ledger s.trust → NoSelf s.ledger (insert event a s.trust)
  NoSelf-insert other h = record {
    at = λ e b eb same. ground (arith, get-insert event e a s.trust, h.at e b, other);
  }

  pub OneTrust-revoke :
      (by : ℕ) → a.revoked_by ≡ some by → OneTrust s.trust → OneTrust (insert event a s.trust)
  OneTrust-revoke by revoked h = record {
    at = λ e f b d eb ed ub ud same.
        ground (arith, get-insert event e a s.trust, get-insert event f a s.trust, h.at e f b d);
  }
