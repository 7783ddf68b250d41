-- ===== src/Tests/Inception.antt =====
-- An inception as it is on the wire, through the gate of crates/mabel-core/src/validate.rs and the fold of
-- crates/mabel-core/src/fold.rs.
use mabel.Base.{◌≡◌, refl, some, none, [], ◌∷◌, ◌++◌}
use mabel.Base.Bytes.{Bytes, be_value, take, drop}
use mabel.Base.Map.{insert}
use mabel.Proto.{declared_kind_of}
use mabel.Crypto.{from_slice, hash, event_id, event_id_domain, sign_input}
use mabel.Validate.Error
use mabel.Validate.Descriptor.{wire_kind, wire_number, find_field}
use mabel.Validate.Values.{
  read_varint, read_varint_from, count, field_number, check_length, check_bytes, check_varint,
}
use mabel.Validate.Scan.{
  check_order, check_wire, check_room, first_value, bytes_of, varint_of, oneof, oneof_in,
  read_value, scan_record, scan_from, scan,
}
use mabel.Validate.Cardinality.{
  bytes_eq, check_count, check_counts, check_oneof, check_cardinality, variants,
}
use mabel.Validate.Message.{
  check_links, check_own_root, check_event_body, subfields, check_raw_root, cross_check,
  validate_with, validate, message_fields, message, signed_event,
}
use mabel.Validate.Varint.{AreBytes}
use mabel.Fold.Reason
use mabel.Fold.Reason.{ok, or_else}
use mabel.Fold.State.{LedgerState, empty, next_seq}
use mabel.Fold.Effect.{commit_effect, commit}
use mabel.Fold.Checks.{identity, public_key, seed_root, seed_from_inception}
use mabel.Fold.Apply.{
  pass, check_position, check_chain, check_signer, verify, check_semantics, apply,
}
use mabel.Fold.Wire.{Decoders, wire_gate, OneEncoding, apply-OneEncoding}
use mabel.Tests.Fixture.{toy, id32, sig64, inception}
use mabel.Tests.Wire.{all_bytes, all_bytes-AreBytes}

abbrev zeros16 : Bytes
zeros16 = 0 ∷ 0 ∷ 0 ∷ 0 ∷ 0 ∷ 0 ∷ 0 ∷ 0 ∷ 0 ∷ 0 ∷ 0 ∷ 0 ∷ 0 ∷ 0 ∷ 0 ∷ 0 ∷ []

-- A raw root, in an inception, in a body, in a signed event.
abbrev root_bytes : Bytes
root_bytes = 10 ∷ 32 ∷ id32 9 ++ (18 ∷ 32 ∷ id32 8)

abbrev inception_bytes : Bytes
inception_bytes = 8 ∷ 1 ∷ 18 ∷ 16 ∷ zeros16 ++ (82 ∷ 68 ∷ root_bytes)

abbrev body_bytes : Bytes
body_bytes = 40 ∷ 232 ∷ 7 ∷ 50 ∷ 32 ∷ id32 9 ++ (82 ∷ 90 ∷ inception_bytes)

abbrev event_bytes : Bytes
event_bytes = 10 ∷ 129 ∷ 1 ∷ body_bytes ++ (18 ∷ 64 ∷ sig64 9)

abbrev decoders : Decoders
decoders = record {
  signed_event = λ b. some (record { body = body_bytes; signature = sig64 9 });
  event_body = λ b. some (record {
    version = 0;
    ledger = [];
    seq = 0;
    prev = [];
    timestamp_ms = 1000;
    author_key = id32 9;
    payload = some inception;
  });
  acceptance = λ b. none;
}

abbrev started : LedgerState
started = or_else empty (apply toy (wire_gate toy decoders) empty event_bytes)

inception_applies : apply toy (wire_gate toy decoders) empty event_bytes ≡ ok started
unfolding apply wire_gate signed_event message message_fields validate validate_with Error.◌>>=◌
    Reason.◌>>=◌ scan scan_from scan_record read_varint read_varint_from field_number count
    find_field check_order check_wire wire_kind wire_number check_room read_value take drop
    check_bytes check_length check_varint check_cardinality check_counts check_count check_oneof
    variants cross_check check_raw_root check_event_body check_links check_own_root subfields
    bytes_of varint_of oneof oneof_in first_value bytes_eq pass next_seq event_id hash
    event_id_domain check_chain check_position public_key from_slice be_value check_signer verify
    sign_input check_semantics insert commit commit_effect identity seed_from_inception seed_root
    declared_kind_of
inception_applies = refl

event_bytes-AreBytes : AreBytes event_bytes
unfolding all_bytes
event_bytes-AreBytes = all_bytes-AreBytes event_bytes refl

apply-OneEncoding_example : OneEncoding toy event_bytes
apply-OneEncoding_example =
    apply-OneEncoding toy decoders empty started event_bytes event_bytes-AreBytes inception_applies
