-- ===== src/Fold/Wire.antt =====
-- The fold of crates/mabel-core/src/fold.rs behind the wire gate of crates/mabel-core/src/validate.rs.
use mabel.Base.{◌≡◌, Option, refl}
use mabel.Base.Bytes.{Bytes}
use mabel.Proto
use mabel.Crypto.{Crypto}
use mabel.Validate.Error.{Result, ◌>>=◌}
use mabel.Validate.Descriptor.{find_field}
use mabel.Validate.Schema
use mabel.Validate.Values.{Scanned}
use mabel.Validate.Varint.{AreBytes}
use mabel.Validate.Canonical.{put_entries, message_fields-put_entries}
use mabel.Validate.Message.{message, message_fields, signed_event}
use mabel.Fold.Reason.{ok}
use mabel.Fold.State.{LedgerState}
use mabel.Fold.Apply.{Gate, apply}
use mabel.Fold.Accepted.{apply-Accepted}

-- The decoders that prost generates from ledger.proto.
pub record Decoders : Type 0 where
  pub signed_event : Bytes → Option Proto.SignedEvent
  pub event_body : Bytes → Option Proto.EventBody
  pub acceptance : Bytes → Option Proto.Acceptance

-- The gate of `apply`: `validate::signed_event`, then the decoders.
unfoldable pub wire_gate : Crypto → Decoders → Gate
wire_gate c d = record {
  signed_event = signed_event c;
  decode_signed_event = d.signed_event;
  decode_event_body = d.event_body;
  decode_acceptance = d.acceptance;
}

-- The fields that the gate read, of which the event is the encoding.
pub record OneEncoding (c : Crypto) (event : Bytes) : Type 0 where
  pub fields : Scanned
  pub read : message_fields c Schema.signed_event event ≡ Result.ok fields
  pub encoding : event ≡ put_entries fields.entries

abbrev accept : Result (Unit {0})
accept = Result.ok tt

returned : (r : Result Scanned) → (r >>= λ _. accept) ≡ accept → (s : Scanned) × (r ≡ Result.ok s)
unfolding ◌>>=◌
returned (Result.ok s) h = (s, refl)
returned (Result.err e) h = cc
returned Result.panic h = cc
returned Result.spent h = cc

message-OneEncoding :
    (c : Crypto) (event : Bytes)
    → AreBytes event
    → message c Schema.signed_event event ≡ Result.ok tt
    → OneEncoding c event
unfolding message find_field
message-OneEncoding c event bytes h =
    let (s, read) = returned (message_fields c Schema.signed_event event) h in
    record {
      fields = s;
      read = read;
      encoding = message_fields-put_entries c Schema.signed_event event s bytes refl read;
    }

-- Behind the wire gate, and whatever the decoders return, the bytes of an event that is accepted on any
-- state are the encoding of the fields that the gate read: the same event has no other bytes.
pub apply-OneEncoding :
    (c : Crypto) (d : Decoders) (s t : LedgerState) (event : Bytes)
    → AreBytes event
    → apply c (wire_gate c d) s event ≡ ok t
    → OneEncoding c event
unfolding wire_gate signed_event
apply-OneEncoding c d s t event bytes h =
    message-OneEncoding c event bytes ((apply-Accepted c (wire_gate c d) s event).holds t h).passed
