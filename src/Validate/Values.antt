-- ===== src/Validate/Values.antt =====
-- The values of crates/mabel-core/src/validate.rs: `read_varint`, `check_varint` and `check_bytes`. The
-- validation of a message inside another is an argument, `rec`.
use mabel.Base.{
  ℕ, ◌+◌, ◌-◌, ◌*◌, ◌/◌, ◌%◌, ◌^◌, Bool, false, not, ◌&&◌, ◌||◌, Option, none, some, List, [], ◌∷◌,
  String, ◌==◌, ltb, leb, if◌then◌else◌,
}
use mabel.Base.Bytes.{Bytes, length}
use mabel.Crypto.{Crypto}
use mabel.Validate.Error.{WireError, Result, ok, err, panic, ◌>>=◌, ◌>>◌, reject_if, ok_or}
use mabel.Validate.Descriptor.{
  EnumValue, StringRule, FieldKind, MessageDescriptor, message_name, oneof_of,
}
use mabel.Validate.Text.{from_utf8, check_display_name, check_hostname, check_email, is_nil}

pub data Value : Type 0 where
  varint : ℕ → Value
  bytes : Bytes → Value

abbrev pub Entries : Type 0
Entries = List (ℕ × Value)

pub record Scanned : Type 0 where
  pub descriptor : MessageDescriptor
  pub depth : ℕ
  pub entries : Entries

-- The loop of `read_varint` on the bytes at the position, with the value and the shift so far; the
-- groups do not overlap, so `|=` adds. Returns the value and the bytes that follow.
unfoldable pub read_varint_from : String → Bytes → (value shift : ℕ) → Result (ℕ × Bytes)
read_varint_from message [] value shift = err (WireError.truncated message)
read_varint_from message (byte ∷ rest) value shift =
    let payload = byte % 128 in
    let sum = value + payload * 2 ^ shift in
    let more = read_varint_from message rest sum (shift + 7) in
    if shift == 63 && ltb 1 payload
    then err (WireError.varint_overflow message)
    else if ltb byte 128
    then (if payload == 0 && ltb 0 shift
        then err (WireError.non_minimal_varint message)
        else ok (sum, rest))
    else if ltb 63 (shift + 7)
    then err (WireError.varint_overflow message)
    else more

unfoldable pub read_varint : String → Bytes → Result (ℕ × Bytes)
read_varint message input = read_varint_from message input 0 0

unfoldable pub unknown_field : MessageDescriptor → ℕ → WireError
unknown_field d number = elim (oneof_of d) [
  | none ↦ WireError.unknown_field (message_name d) number
  | some oneof ↦
      if leb oneof.first_number number
      then WireError.unknown_oneof_variant (message_name d) oneof.name number
      else WireError.unknown_field (message_name d) number
]

abbrev accepts : List EnumValue → ℕ → Bool
accepts [] value = false
accepts (e ∷ es) value = e.number == value || accepts es value

unfoldable pub check_varint : FieldKind → (field message : String) → ℕ → Result (Unit {0})
check_varint (FieldKind.enum values) field message value = do
  reject_if (value == 0) (WireError.unspecified_enum message field)
  reject_if (not (accepts values value)) (WireError.enum_value message field value)
check_varint (FieldKind.varint min max) field message value = do
  reject_if (value == 0) (WireError.default_value_encoded message field)
  reject_if (ltb value min || ltb max value)
      (WireError.value_out_of_range message field value min max)
check_varint _ field message value = panic

-- An empty value is the default, which is not encoded, and a value has a cap.
unfoldable pub check_length : (field message : String) (max : ℕ) → Bytes → Result (Unit {0})
check_length field message max slice = do
  reject_if (is_nil slice) (WireError.default_value_encoded message field)
  reject_if (ltb max (length slice)) (WireError.field_too_long message field (length slice) max)

abbrev has_other_length : Option ℕ → Bytes → Bool
has_other_length none slice = false
has_other_length (some exact) slice = not (length slice == exact)

abbrev exact_or : Option ℕ → ℕ
exact_or none = 0
exact_or (some exact) = exact

-- `rule(text).map_err(|reason| …)`.
abbrev pub with_reason : Option String → (String → WireError) → Result (Unit {0})
with_reason none e = ok tt
with_reason (some reason) e = err (e reason)

unfoldable pub field_number : ℕ → ℕ
field_number key = if leb (2 ^ 32) (key / 8) then 2 ^ 32 - 1 else key / 8

-- How often a field appeared.
unfoldable pub count : ℕ → Entries → ℕ
count number [] = 0
count number ((found, _) ∷ es) = (if found == number then 1 else 0) + count number es

module _ (c : Crypto) where
  unfoldable pub check_string :
      StringRule → (field message : String) → Bytes → List ℕ → Result (Unit {0})
  unfolding check_display_name check_hostname check_email
  check_string StringRule.utf8 field message slice chars = ok tt
  check_string StringRule.display_name field message slice chars =
      with_reason (check_display_name c slice chars) (WireError.invalid_display_name message field)
  check_string StringRule.hostname field message slice chars =
      with_reason (check_hostname slice) (WireError.invalid_hostname message field)
  check_string StringRule.email field message slice chars =
      with_reason (check_email slice chars) (WireError.invalid_email message field)

  -- `rec` validates an embedded message at a depth.
  unfoldable pub check_bytes :
      (MessageDescriptor → Bytes → ℕ → Result Scanned)
      → FieldKind
      → (field message : String) → Bytes
      → ℕ
      → Result (Unit {0})
  unfolding check_length check_string
  check_bytes rec (FieldKind.bytes exact max) field message slice depth = do
    reject_if (has_other_length exact slice)
        (WireError.wrong_length message field (exact_or exact) (length slice))
    check_length field message max slice
  check_bytes rec (FieldKind.string max rule) field message slice depth = do
    check_length field message max slice
    chars ← ok_or (from_utf8 slice) (WireError.invalid_utf8 message field)
    check_string rule field message slice chars
  check_bytes rec (FieldKind.nested d max) field message slice depth = do
    check_length field message max slice
    _ ← rec d slice (depth + 1)
    ok tt
  check_bytes rec (FieldKind.message d) field message slice depth = do
    _ ← rec d slice (depth + 1)
    ok tt
  check_bytes rec (FieldKind.detached d) field message slice depth = do _ ← rec d slice 0; ok tt
  check_bytes rec _ field message slice depth = panic
