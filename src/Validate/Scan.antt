-- ===== src/Validate/Scan.antt =====
-- The scanner of crates/mabel-core/src/validate.rs, `scan`, and the readers of a scan, `Scanned`.
use mabel.Base.{
  ℕ, zero, suc, ◌+◌, ◌%◌, not, ◌&&◌, ◌||◌, Option, none, some, List, [], ◌∷◌, ◌++◌, String, ◌==◌,
  ltb, leb, if◌then◌else◌,
}
use mabel.Base.Bytes.{Bytes, length, take, drop}
use mabel.Crypto.{Crypto}
use mabel.Validate.Error.{WireError, Result, ok, spent, ◌>>=◌, ◌>>◌, reject_if, ok_or}
use mabel.Validate.Descriptor.{
  WireKind, wire_number, Cardinality, FieldDescriptor, Fields, MessageDescriptor, name_of,
  cardinality_of, kind_of, message_name, fields_of, wire_kind, find_field, is_variant, is_repeated,
}
use mabel.Validate.Values.{
  Value, Entries, Scanned, read_varint, unknown_field, check_varint, check_bytes, field_number,
  count,
}

-- A field that is not repeated appears once, and the numbers ascend.
unfoldable pub check_order :
    String → FieldDescriptor → (number last_number seen : ℕ) → Result (Unit {0})
check_order name field number last_number seen = do
  reject_if (ltb 0 seen && not (is_repeated (cardinality_of field)))
      (WireError.duplicate_field name (name_of field))
  reject_if (ltb number last_number || ltb 0 seen && not (number == last_number))
      (WireError.field_out_of_order name number)

unfoldable pub check_wire : String → FieldDescriptor → ℕ → Result (Unit {0})
check_wire name field wire =
    let expected = wire_number (wire_kind (kind_of field)) in
    reject_if (not (wire == expected))
      (WireError.wrong_wire_type name (name_of field) expected wire)

-- The cap of a repeated field, before the entry that would pass it is read.
unfoldable pub check_room : String → FieldDescriptor → Cardinality → ℕ → Result (Unit {0})
check_room name field (Cardinality.repeated min max _) seen =
    reject_if (leb max seen) (WireError.repeated_count name (name_of field) (seen + 1) min max)
check_room name field _ seen = ok tt

-- The value of a varint field or of a length-delimited one, or nothing.
abbrev pub varint_value : Value → Option ℕ
varint_value (Value.varint v) = some v
varint_value (Value.bytes _) = none

abbrev pub bytes_value : Value → Option Bytes
bytes_value (Value.varint _) = none
bytes_value (Value.bytes b) = some b

abbrev pub or_later : {A : Type 0} → Option A → Option A → Option A
or_later none later = later
or_later (some a) later = some a

module _ {A : Type 0} (read : Value → Option A) where
  -- The first entry of a field that holds such a value.
  unfoldable pub first_value : ℕ → Entries → Option A
  first_value number [] = none
  first_value number ((found, v) ∷ es) =
      let rest = first_value number es in if found == number then or_later (read v) rest else rest

-- `Scanned::varint` and `Scanned::bytes`.
unfoldable pub varint_of : Scanned → ℕ → Option ℕ
unfolding first_value
varint_of s number = first_value varint_value number s.entries

unfoldable pub bytes_of : Scanned → ℕ → Option Bytes
unfolding first_value
bytes_of s number = first_value bytes_value number s.entries

cons_some : {A : Type 0} → Option A → List A → List A
cons_some none xs = xs
cons_some (some x) xs = x ∷ xs

-- `Scanned::repeated_bytes`, on the entries.
unfoldable pub repeated_bytes : ℕ → Entries → List Bytes
unfolding cons_some
repeated_bytes number [] = []
repeated_bytes number ((found, v) ∷ es) =
    let rest = repeated_bytes number es in
    if found == number then cons_some (bytes_value v) rest else rest

abbrev variant_bytes : Option FieldDescriptor → Value → Option Bytes
variant_bytes none v = none
variant_bytes (some f) v = if is_variant (cardinality_of f) then bytes_value v else none

abbrev with_number : ℕ → Option Bytes → Option (ℕ × Bytes)
with_number number none = none
with_number number (some b) = some (number, b)

-- `Scanned::oneof`, on the fields of the descriptor and the entries.
unfoldable pub oneof_in : Fields → Entries → Option (ℕ × Bytes)
oneof_in fields [] = none
oneof_in fields ((number, v) ∷ es) =
    or_later (with_number number (variant_bytes (find_field fields number) v)) (oneof_in fields es)

unfoldable pub oneof : Scanned → Option (ℕ × Bytes)
unfolding oneof_in
oneof s = oneof_in (fields_of s.descriptor) s.entries

module _ (c : Crypto) (rec : MessageDescriptor → Bytes → ℕ → Result Scanned) where
  -- One value of the field at the position, and the bytes that follow it.
  unfoldable pub read_value :
      WireKind → String → FieldDescriptor → Bytes → ℕ → Result (Value × Bytes)
  read_value WireKind.varint name field input depth = do
    (value, rest) ← read_varint name input
    check_varint (kind_of field) (name_of field) name value
    ok (Value.varint value, rest)
  read_value WireKind.len name field input depth = do
    (len, rest) ← read_varint name input
    reject_if (ltb (length rest) len) (WireError.truncated name)
    let slice = take len rest
    check_bytes c rec (kind_of field) (name_of field) name slice depth
    ok (Value.bytes slice, drop len rest)

  -- One round of the loop of `scan`: a field number, its value, and the bytes that follow.
  unfoldable pub scan_record :
      MessageDescriptor → ℕ → Bytes → Entries → ℕ → Result (ℕ × Value × Bytes)
  unfolding check_order check_wire check_room
  scan_record d depth input entries last_number = do
    (key, rest) ← read_varint (message_name d) input
    let number = field_number key
    field ← ok_or (find_field (fields_of d) number) (unknown_field d number)
    check_order (message_name d) field number last_number (count number entries)
    check_wire (message_name d) field (key % 8)
    check_room (message_name d) field (cardinality_of field) (count number entries)
    (value, rest') ← read_value (wire_kind (kind_of field)) (message_name d) field rest depth
    ok (number, value, rest')

  -- The loop of `scan`, on fuel: a round takes at least one byte.
  unfoldable pub scan_from : ℕ → MessageDescriptor → ℕ → Bytes → Entries → ℕ → Result Entries
  scan_from fuel d depth [] entries last_number = ok entries
  scan_from zero d depth (b ∷ bs) entries last_number = spent
  scan_from (suc fuel) d depth (b ∷ bs) entries last_number = do
    (number, value, rest) ← scan_record d depth (b ∷ bs) entries last_number
    scan_from fuel d depth rest (entries ++ (number, value) ∷ []) number

  unfoldable pub scan : MessageDescriptor → Bytes → ℕ → Result Scanned
  scan d input depth = do
    reject_if (ltb 8 depth) WireError.too_deeply_nested
    entries ← scan_from (length input) d depth input [] 0
    ok (record { descriptor = d; depth = depth; entries = entries })
