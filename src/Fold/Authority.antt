-- ===== src/Fold/Authority.antt =====
-- What `apply` of crates/mabel-core/src/fold.rs checks of an event past seq 0 in its steps 2 to 5: the
-- links, the author and the signature.
use mabel.Base.{
  ℕ, ◌+◌, ◌≤◌, true, false, not, ◌≡◌, Option, some, refl, ◌∙◌, arith, ◌==◌, ltb, Option-cases, inl,
  inr,
}
use mathlib.Core.Path.{subst}
use mabel.Base.Bytes.{Bytes, length}
use mabel.Proto
use mabel.Crypto.{Crypto, event_id, sign_input, sig_bytes, from_slice}
use mabel.Fold.Reason.{ok, Ensures, Ensures-bind, Ensures-ok, expect-some, reject_if-ok, ◌>>=◌}
use mabel.Fold.State.{Head, SigningPrincipal, LedgerState, next_seq, signing_principal}
use mabel.Fold.Effect.{Effect, commit}
use mabel.Fold.Checks.{identity, public_key}
use mabel.Fold.Apply.{Gate, apply, check_chain, check_signer, verify}
use mabel.Fold.Controllers.{Signs, signing_principal-Signs}
use mabel.Fold.Sound.{IsLive}
use mabel.Fold.Shape.{next_seq-headed}
use mabel.Fold.Accepted.{apply-Accepted}

-- The links of an event to the head before it.
pub record Links (ledger : Option ℕ) (head : Head) (body : Proto.EventBody) : Type 0 where
  pub same_ledger : from_slice body.ledger ≡ ledger
  pub previous : from_slice body.prev ≡ some head.event_id
  pub time : head.timestamp_ms ≤ body.timestamp_ms

check_chain-Links :
    (ledger : Option ℕ) (body : Proto.EventBody) (head : Head)
    → Ensures (λ _. Links ledger head body) (check_chain ledger body (some head))
unfolding check_chain identity
check_chain-Links ledger body head = Ensures-bind _ _ λ named e. Ensures-bind _ _ λ expected e'.
    Ensures-bind _ _ λ _ same. Ensures-bind _ _ λ prev p. Ensures-bind _ _ λ _ linked. record {
      holds = λ _ timed. record {
        same_ledger = ground (
          arith,
          expect-some _ e,
          expect-some _ e',
          reject_if-ok (not (named == expected)) _ same,
        );
        previous =
            ground (arith, expect-some _ p, reject_if-ok (not (prev == head.event_id)) _ linked);
        time = ground (arith, reject_if-ok (ltb body.timestamp_ms head.timestamp_ms) _ timed);
      };
    }

check_signer-some :
    (s : LedgerState) (seq key : ℕ) (o : Option SigningPrincipal)
    → (seq == 0) ≡ false
    → check_signer s seq key ≡ ok o
    → (p : SigningPrincipal) × (signing_principal s key ≡ some p)
unfolding check_signer ◌>>=◌
check_signer-some s seq key o later h = elim (Option-cases (signing_principal s key)) [
  | inl missing ↦ absurd (ground (arith, later, missing))
  | inr (p, found) ↦ (p, found)
]

pub public_key-from_slice :
    (c : Crypto) (bytes : Bytes) (field : _) (key : ℕ)
    → public_key c bytes field ≡ ok key
    → from_slice bytes ≡ some key
unfolding public_key ◌>>=◌
public_key-from_slice c bytes field key h = elim (Option-cases (from_slice bytes)) [
  | inl missing ↦ absurd (ground (arith, missing))
  | inr (k, found) ↦ ground (arith, found)
]

verify-true :
    (c : Crypto) (key : ℕ) (input signature : Bytes)
    → verify c key input signature ≡ ok tt
    → (length signature ≡ sig_bytes) × (c.verify key input signature ≡ true)
unfolding verify
verify-true c key input signature h = ground arith

new_head :
    (seq id timestamp_ms : ℕ) (effect : Effect) (s t : LedgerState)
    → commit seq id timestamp_ms effect s ≡ ok t
    → t.head ≡ some (record { seq = seq; event_id = id; timestamp_ms = timestamp_ms })
new_head seq id timestamp_ms effect s t h = (heads seq id timestamp_ms effect s).holds t h
  where
    heads :
        (seq id timestamp_ms : ℕ) (effect : Effect) (s : LedgerState)
        → Ensures
            (λ u. u.head ≡ some (record { seq = seq; event_id = id; timestamp_ms = timestamp_ms }))
            (commit seq id timestamp_ms effect s)
    heads seq id timestamp_ms effect s =
        unfold commit in (Ensures-bind _ _ λ u _. Ensures-ok _ refl)

-- What `apply` has checked of an event past seq 0.
pub record Endorsed (c : Crypto) (g : Gate) (s : LedgerState) (event : Bytes) (t : LedgerState)
    : Type 0 where
  pub signed : Proto.SignedEvent
  pub body : Proto.EventBody
  pub head : Head
  pub author_key : ℕ
  pub signer : SigningPrincipal
  pub decoded : g.decode_signed_event event ≡ some signed
  pub body_decoded : g.decode_event_body signed.body ≡ some body
  pub was_head : s.head ≡ some head
  pub links : Links s.ledger head body
  pub sequence : body.seq ≡ head.seq + 1
  pub author : from_slice body.author_key ≡ some author_key
  pub signs : Signs s.principals author_key signer
  pub verified : c.verify author_key (sign_input c signed.body) signed.signature ≡ true
  pub now_head :
      t.head
      ≡ some (record {
        seq = head.seq + 1;
        event_id = event_id c signed.body;
        timestamp_ms = body.timestamp_ms;
      })

-- An event that is accepted on a live ledger names the ledger and the previous event, has the next
-- position and no earlier time, is signed under `author_key` over its received body, and that key is
-- the key of a controller of the state before it; the event becomes the head.
pub apply-Endorsed :
    (c : Crypto) (g : Gate) (s t : LedgerState) (event : Bytes)
    → IsLive s
    → apply c g s event ≡ ok t
    → Endorsed c g s event t
unfolding next_seq
apply-Endorsed c g s t event live h =
    let a = (apply-Accepted c g s event).holds t h in
    elim (Option-cases s.head) [
      | inl missing ↦ absurd (ground (arith, missing, live.headed))
      | inr (head, held) ↦
          let seq : next_seq s ≡ head.seq + 1 = ground (arith, held) in
          let (p, found) =
            check_signer-some s (next_seq s) a.author_key a.signer (next_seq-headed s live.headed)
              a.authorized in
          record {
            signed = a.signed;
            body = a.body;
            head = head;
            author_key = a.author_key;
            signer = p;
            decoded = a.decoded;
            body_decoded = a.body_decoded;
            was_head = held;
            links =
                (check_chain-Links s.ledger a.body head).holds tt
                  (subst (λ o. check_chain s.ledger a.body o ≡ ok tt) held a.chained);
            sequence = a.in_sequence ∙ seq;
            author = public_key-from_slice c a.body.author_key _ a.author_key a.keyed;
            signs =
                signing_principal-Signs s a.author_key p live.sound.members.principals_ordered
                  found;
            verified = (verify-true c a.author_key _ _ a.verified).1;
            now_head =
                rw (← seq) (new_head (next_seq s) _ a.body.timestamp_ms a.effect s t a.committed);
          }
    ]
