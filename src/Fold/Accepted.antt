-- ===== src/Fold/Accepted.antt =====
-- What `apply` of crates/mabel-core/src/fold.rs has established once it returns a new state.
use mabel.Base.{ℕ, ◌≡◌, Option, some, arith, refl, not, ◌==◌}
use mabel.Base.Bytes.{Bytes}
use mabel.Proto
use mabel.Proto.{Payload}
use mabel.Crypto.{Crypto, event_id, sign_input}
use mabel.Validate.Error.{Result}
use mabel.Fold.Reason.{ok, Ensures, Ensures-bind, reject_if-ok, expect-some}
use mabel.Fold.State.{SigningPrincipal, LedgerState, next_seq}
use mabel.Fold.Effect.{Effect, commit}
use mabel.Fold.Checks.{public_key}
use mabel.Fold.Apply.{
  Gate, pass, check_chain, check_position, check_signer, check_semantics, verify, apply,
}

pass-ok : (r : Result (Unit {0})) → pass r ≡ ok tt → r ≡ Result.ok tt
unfolding pass
pass-ok (Result.ok tt) h = refl
pass-ok (Result.err e) h = cc
pass-ok Result.panic h = cc
pass-ok Result.spent h = cc

module _ (c : Crypto) (g : Gate) (s : LedgerState) (event : Bytes) where
  pub record Accepted (t : LedgerState) : Type 0 where
    pub signed : Proto.SignedEvent
    pub body : Proto.EventBody
    pub payload : Payload
    pub author_key : ℕ
    pub signer : Option SigningPrincipal
    pub effect : Effect
    pub passed : g.signed_event event ≡ Result.ok tt
    pub decoded : g.decode_signed_event event ≡ some signed
    pub body_decoded : g.decode_event_body signed.body ≡ some body
    pub carried : body.payload ≡ some payload
    pub in_sequence : body.seq ≡ next_seq s
    pub chained : check_chain s.ledger body s.head ≡ ok tt
    pub placed : check_position (next_seq s) payload ≡ ok tt
    pub keyed : public_key c body.author_key "EventBody.author_key" ≡ ok author_key
    pub authorized : check_signer s (next_seq s) author_key ≡ ok signer
    pub verified : verify c author_key (sign_input c signed.body) signed.signature ≡ ok tt
    pub checked : check_semantics c g s (event_id c signed.body) payload signer ≡ ok effect
    pub committed : commit (next_seq s) (event_id c signed.body) body.timestamp_ms effect s ≡ ok t

  pub apply-Accepted : Ensures Accepted (apply c g s event)
  unfolding apply
  apply-Accepted = Ensures-bind _ _ λ _ passed. Ensures-bind _ _ λ signed decoded.
      Ensures-bind _ _ λ body body_decoded. Ensures-bind _ _ λ payload carried.
        Ensures-bind _ _ λ _ seq. Ensures-bind _ _ λ _ chained. Ensures-bind _ _ λ _ placed.
          Ensures-bind _ _ λ key keyed. Ensures-bind _ _ λ signer authorized.
            Ensures-bind _ _ λ _ verified. Ensures-bind _ _ λ effect checked. record {
              holds = λ t committed. record {
                signed = signed;
                body = body;
                payload = payload;
                author_key = key;
                signer = signer;
                effect = effect;
                passed = pass-ok _ passed;
                decoded = expect-some _ decoded;
                body_decoded = expect-some _ body_decoded;
                carried = expect-some _ carried;
                in_sequence = ground (arith, reject_if-ok (not (body.seq == next_seq s)) _ seq);
                chained = chained;
                placed = placed;
                keyed = keyed;
                authorized = authorized;
                verified = verified;
                checked = checked;
                committed = committed;
              };
            }
