-- ===== src/Validate/Error.antt =====
-- `WireError` of crates/mabel-core/src/validate.rs: why a byte string is not a valid message.
use mabel.Base.{ℕ, String, Bool, true, false, Option, none, some}

pub data WireError : Type 0 where
  message_too_large : (message : String) → (len : ℕ) → (cap : ℕ) → WireError
  truncated : (message : String) → WireError
  non_minimal_varint : (message : String) → WireError
  varint_overflow : (message : String) → WireError
  unknown_field : (message : String) → (number : ℕ) → WireError
  unknown_oneof_variant : (message : String) → (oneof : String) → (number : ℕ) → WireError
  wrong_wire_type :
      (message : String) → (field : String) → (expected : ℕ) → (actual : ℕ) → WireError
  duplicate_field : (message : String) → (field : String) → WireError
  field_out_of_order : (message : String) → (number : ℕ) → WireError
  default_value_encoded : (message : String) → (field : String) → WireError
  field_forbidden : (message : String) → (field : String) → WireError
  missing_field : (message : String) → (field : String) → WireError
  missing_oneof : (message : String) → (oneof : String) → WireError
  multiple_oneof_variants : (message : String) → (oneof : String) → WireError
  unspecified_enum : (message : String) → (field : String) → WireError
  enum_value : (message : String) → (field : String) → (value : ℕ) → WireError
  wrong_length : (message : String) → (field : String) → (expected : ℕ) → (actual : ℕ) → WireError
  field_too_long : (message : String) → (field : String) → (len : ℕ) → (cap : ℕ) → WireError
  invalid_utf8 : (message : String) → (field : String) → WireError
  invalid_display_name : (message : String) → (field : String) → (reason : String) → WireError
  invalid_hostname : (message : String) → (field : String) → (reason : String) → WireError
  invalid_email : (message : String) → (field : String) → (reason : String) → WireError
  value_out_of_range :
      (message : String) → (field : String) → (value : ℕ) → (min : ℕ) → (max : ℕ) → WireError
  repeated_count :
      (message : String) → (field : String) → (count : ℕ) → (min : ℕ) → (max : ℕ) → WireError
  repeated_duplicate : (message : String) → (field : String) → WireError
  fields_must_differ : (first : String) → (second : String) → WireError
  fields_must_match : (first : String) → (second : String) → WireError
  set_at_seq_zero : (field : String) → WireError
  missing_chain_field : (field : String) → WireError
  inception_past_seq_zero : WireError
  non_inception_at_seq_zero : WireError
  embedded_inception_not_raw_rooted : WireError
  inception_id_mismatch : (field : String) → WireError
  inception_key_mismatch : (field : String) → WireError
  invalid_public_key : (message : String) → (field : String) → WireError
  bad_signature : (message : String) → (field : String) → WireError
  too_deeply_nested : WireError

-- A stable snake-case name for this rejection class.
pub code : WireError → String
code (WireError.message_too_large _ _ _) = "message_too_large"
code (WireError.truncated _) = "truncated"
code (WireError.non_minimal_varint _) = "non_minimal_varint"
code (WireError.varint_overflow _) = "varint_overflow"
code (WireError.unknown_field _ _) = "unknown_field"
code (WireError.unknown_oneof_variant _ _ _) = "unknown_oneof_variant"
code (WireError.wrong_wire_type _ _ _ _) = "wrong_wire_type"
code (WireError.duplicate_field _ _) = "duplicate_field"
code (WireError.field_out_of_order _ _) = "field_out_of_order"
code (WireError.default_value_encoded _ _) = "default_value_encoded"
code (WireError.field_forbidden _ _) = "field_forbidden"
code (WireError.missing_field _ _) = "missing_field"
code (WireError.missing_oneof _ _) = "missing_oneof"
code (WireError.multiple_oneof_variants _ _) = "multiple_oneof_variants"
code (WireError.unspecified_enum _ _) = "unspecified_enum"
code (WireError.enum_value _ _ _) = "enum_value"
code (WireError.wrong_length _ _ _ _) = "wrong_length"
code (WireError.field_too_long _ _ _ _) = "field_too_long"
code (WireError.invalid_utf8 _ _) = "invalid_utf8"
code (WireError.invalid_display_name _ _ _) = "invalid_display_name"
code (WireError.invalid_hostname _ _ _) = "invalid_hostname"
code (WireError.invalid_email _ _ _) = "invalid_email"
code (WireError.value_out_of_range _ _ _ _ _) = "value_out_of_range"
code (WireError.repeated_count _ _ _ _ _) = "repeated_count"
code (WireError.repeated_duplicate _ _) = "repeated_duplicate"
code (WireError.fields_must_differ _ _) = "fields_must_differ"
code (WireError.fields_must_match _ _) = "fields_must_match"
code (WireError.set_at_seq_zero _) = "set_at_seq_zero"
code (WireError.missing_chain_field _) = "missing_chain_field"
code WireError.inception_past_seq_zero = "inception_past_seq_zero"
code WireError.non_inception_at_seq_zero = "non_inception_at_seq_zero"
code WireError.embedded_inception_not_raw_rooted = "embedded_inception_not_raw_rooted"
code (WireError.inception_id_mismatch _) = "inception_id_mismatch"
code (WireError.inception_key_mismatch _) = "inception_key_mismatch"
code (WireError.invalid_public_key _ _) = "invalid_public_key"
code (WireError.bad_signature _ _) = "bad_signature"
code WireError.too_deeply_nested = "too_deeply_nested"

-- `Result<A, WireError>`, with a panic, where the source calls `expect` or `unreachable`, and the
-- end of the fuel, on which the validator's recursion runs.
pub data Result {ℓ} (A : Type ℓ) : Type ℓ where
  ok : A → Result A
  err : WireError → Result A
  panic : Result A
  spent : Result A

infixl 5 ◌>>=◌ ◌>>◌
unfoldable pub ◌>>=◌ {ℓ κ} : {A : Type ℓ} {B : Type κ} → Result A → (A → Result B) → Result B
ok a >>= f = f a
err e >>= f = err e
panic >>= f = panic
spent >>= f = spent

abbrev pub ◌>>◌ {ℓ} : {B : Type ℓ} → Result (Unit {0}) → Result B → Result B
m >> k = m >>= λ _. k

abbrev pub reject_if : Bool → WireError → Result (Unit {0})
reject_if true e = err e
reject_if false e = ok tt

abbrev pub expect {ℓ} : {A : Type ℓ} → Option A → Result A
expect none = panic
expect (some a) = ok a

abbrev pub ok_or {ℓ} : {A : Type ℓ} → Option A → WireError → Result A
ok_or none e = err e
ok_or (some a) e = ok a
