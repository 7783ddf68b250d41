-- ===== src/Tests/Wire.antt =====
-- The validator of crates/mabel-core/src/validate.rs at concrete bytes: a varint and a raw root.
use mabel.Base.{
  ltb, Bool, true, ◌&&◌, ◌≡◌, ◌↔◌, ◌<◌, ◌^◌, ◌-◌, refl, none, some, [], ◌∷◌, ◌++◌, arith,
}
use mabel.Base.Bytes.{Bytes, take, drop}
use mabel.Validate.Error.{ok, ◌>>=◌}
use mabel.Validate.Conforms.{Counted, message_fields-Counted}
use mabel.Validate.Descriptor.{
  FieldDescriptor, FieldKind, Cardinality, wire_kind, wire_number, find_field, fields_of,
}
use mabel.Validate.Schema
use mabel.Validate.Values.{
  Value, Scanned, read_varint, read_varint_from, count, field_number, check_length, check_bytes,
}
use mabel.Validate.Scan.{
  repeated_bytes, check_order, check_wire, check_room, first_value, bytes_of, read_value,
  scan_record, scan_from, scan,
}
use mabel.Validate.Cardinality.{bytes_eq, check_count, check_counts, check_oneof, check_cardinality}
use mabel.Validate.Message.{check_raw_root, cross_check, validate_with, validate, message_fields}
use mabel.Validate.Varint.{put_varint, AreBytes, read_varint_iff}
use mabel.Validate.Canonical.{put_entries, message_fields-put_entries}
use mabel.Tests.Fixture.{toy, id32}

-- 300, and a byte that follows.
read_varint_iff_example :
    (read_varint "M" (172 ∷ 2 ∷ 7 ∷ []) ≡ ok (300, 7 ∷ []))
    ↔ ((300 < 2 ^ 64) × (172 ∷ 2 ∷ 7 ∷ [] ≡ put_varint 9 300 ++ 7 ∷ []))
read_varint_iff_example =
    read_varint_iff "M" (172 ∷ 2 ∷ 7 ∷ []) 300 (7 ∷ [])
      (omega arith, (omega arith, (omega arith, tt)))

abbrev raw_root : Bytes
raw_root = 10 ∷ 32 ∷ id32 9 ++ (18 ∷ 32 ∷ id32 8)

abbrev scanned : Scanned
scanned = record {
  descriptor = Schema.raw_root;
  depth = 0;
  entries = (1, Value.bytes (id32 9)) ∷ (2, Value.bytes (id32 8)) ∷ [];
}

raw_root_fields : message_fields toy Schema.raw_root raw_root ≡ ok scanned
unfolding message_fields validate validate_with ◌>>=◌ scan scan_from scan_record read_varint
    read_varint_from field_number count find_field check_order check_wire wire_kind wire_number
    check_room read_value take drop check_bytes check_length check_cardinality check_counts
    check_count check_oneof cross_check check_raw_root bytes_of first_value bytes_eq
raw_root_fields = refl

no_last_number : find_field (fields_of Schema.raw_root) (2 ^ 32 - 1) ≡ none
unfolding find_field
no_last_number = refl

unfoldable pub all_bytes : Bytes → Bool
all_bytes [] = true
all_bytes (b ∷ bs) = ltb b 256 && all_bytes bs

pub all_bytes-AreBytes : (bs : Bytes) → all_bytes bs ≡ true → AreBytes bs
unfolding all_bytes
all_bytes-AreBytes [] h = tt
all_bytes-AreBytes (b ∷ bs) h = (ground arith, all_bytes-AreBytes bs (ground arith))

raw_root-AreBytes : AreBytes raw_root
unfolding all_bytes
raw_root-AreBytes = all_bytes-AreBytes raw_root refl

message_fields-put_entries_example : raw_root ≡ put_entries scanned.entries
message_fields-put_entries_example =
    message_fields-put_entries toy Schema.raw_root raw_root scanned raw_root-AreBytes no_last_number
      raw_root_fields

active_key :
    find_field (fields_of Schema.raw_root) 1
    ≡ some (
        FieldDescriptor.field_descriptor 1 "active_key" Cardinality.required
          (FieldKind.bytes (some 32) 32))
unfolding find_field
active_key = refl

message_fields-Counted_example :
    Counted Cardinality.required (count 1 scanned.entries) (repeated_bytes 1 scanned.entries)
message_fields-Counted_example =
    message_fields-Counted toy Schema.raw_root raw_root scanned 1
      (FieldDescriptor.field_descriptor 1 "active_key" Cardinality.required
        (FieldKind.bytes (some 32) 32))
      raw_root_fields active_key
