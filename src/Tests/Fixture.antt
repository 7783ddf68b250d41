-- ===== src/Tests/Fixture.antt =====
-- Toy primitives and a table of events for crates/mabel-core/src/fold.rs: the event `k ∷ []` has the
-- body `k ∷ []` and the id `k`.
use mabel.Base.{ℕ, ◌+◌, zero, suc, true, Option, none, some, [], ◌∷◌, ◌++◌, ◌==◌, if◌then◌else◌}
use mabel.Base.Bytes.{Bytes}
use mabel.Proto
use mabel.Proto.{Payload}
use mabel.Crypto.{Crypto}
use mabel.Validate.Error.{Result}
use mabel.Fold.Reason.{or_else}
use mabel.Fold.State.{LedgerState, empty}
use mabel.Fold.Apply.{Gate, apply}

abbrev last_byte : Bytes → ℕ
last_byte [] = 0
last_byte (x ∷ []) = x
last_byte (x ∷ y ∷ ys) = last_byte (y ∷ ys)

-- A digest is the last byte, and a signature ends in the key that made it.
abbrev pub toy : Crypto
toy = record {
  blake3 = last_byte;
  is_point = λ key. true;
  verify = λ key input signature. last_byte signature == key;
  base32_nopad = λ text. none;
}

abbrev zeros : ℕ → Bytes
zeros zero = []
zeros (suc n) = 0 ∷ zeros n

abbrev pub id32 : ℕ → Bytes
id32 k = zeros 31 ++ k ∷ []

abbrev pub sig64 : ℕ → Bytes
sig64 k = zeros 63 ++ k ∷ []

abbrev pub body : ℕ → ℕ → Payload → Proto.EventBody
body seq prev payload = record {
  version = 1;
  ledger = id32 1;
  seq = seq;
  prev = id32 prev;
  timestamp_ms = 1000 + seq;
  author_key = id32 9;
  payload = some payload;
}

abbrev pub inception : Payload
inception = Payload.inception (record {
  kind = 1;
  nonce = [];
  root =
      some (Proto.InceptionRoot.raw_root (record { active_key = id32 9; reserve_commit = id32 8 }));
})

abbrev invitation : Payload
invitation =
    Payload.membership_invitation
      (record { invitee = id32 7; invitee_key = id32 70; role = 2; invitee_inception = [] })

abbrev attestation : Payload
attestation = Payload.trust_attestation (record { subject = id32 50 })

abbrev revocation : Payload
revocation = Payload.trust_revocation (record { target = id32 2 })

abbrev pub acceptance : Payload
acceptance = Payload.membership_acceptance (record { acceptance = []; signature = [] })

abbrev pub body_of : ℕ → Option Proto.EventBody
body_of k =
    if k == 1
    then some (body 0 0 inception)
    else if k == 2
    then some (body 1 1 attestation)
    else if k == 3
    then some (body 2 2 invitation)
    else if k == 4
    then some (body 3 3 acceptance)
    else if k == 5
    then some (body 3 3 revocation)
    else none

abbrev pub table : Gate
table = record {
  signed_event = λ event. Result.ok tt;
  decode_signed_event = λ event. some (record { body = event; signature = sig64 9 });
  decode_event_body = λ b. body_of (last_byte b);
  decode_acceptance = λ b. some (record {
    version = 1;
    ledger = id32 1;
    invitation_event = id32 3;
    invitee = id32 7;
    invitee_key = id32 70;
  });
}

abbrev after : LedgerState → ℕ → LedgerState
after s k = or_else s (apply toy table s (k ∷ []))

-- A ledger after its inception, an attestation, an invitation and then the acceptance or the
-- revocation.
abbrev pub incepted : LedgerState
incepted = after empty 1

abbrev pub attested : LedgerState
attested = after incepted 2

abbrev pub invited : LedgerState
invited = after attested 3

abbrev pub admitted : LedgerState
admitted = after invited 4

abbrev pub revoked : LedgerState
revoked = after invited 5
