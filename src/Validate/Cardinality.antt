-- ===== src/Validate/Cardinality.antt =====
-- `check_cardinality` of crates/mabel-core/src/validate.rs: how often each field of a scanned message
-- appeared, and its `oneof`.
use mabel.Base.{
  ℕ, ◌+◌, Bool, true, false, ◌&&◌, ◌||◌, Option, none, some, List, [], ◌∷◌, String, ◌==◌, ltb,
  if◌then◌else◌,
}
use mabel.Base.Bytes.{Bytes}
use mabel.Validate.Error.{WireError, Result, ok, ◌>>◌, reject_if}
use mabel.Validate.Descriptor.{
  Cardinality, FieldKind, FieldDescriptor, Fields, Oneof, number_of, name_of, cardinality_of,
  kind_of, message_name, fields_of, oneof_of, is_variant,
}
use mabel.Validate.Values.{Entries, Scanned, count}
use mabel.Validate.Scan.{repeated_bytes}

-- Equality of byte strings.
unfoldable pub bytes_eq : Bytes → Bytes → Bool
bytes_eq [] [] = true
bytes_eq [] (_ ∷ _) = false
bytes_eq (_ ∷ _) [] = false
bytes_eq (x ∷ xs) (y ∷ ys) = x == y && bytes_eq xs ys

unfoldable pub contains : List Bytes → Bytes → Bool
unfolding bytes_eq
contains [] b = false
contains (x ∷ xs) b = bytes_eq x b || contains xs b

-- Whether some entry appears again behind itself.
unfoldable pub repeats : List Bytes → Bool
unfolding contains
repeats [] = false
repeats (x ∷ xs) = contains xs x || repeats xs

abbrev missing : FieldKind → (message field : String) → WireError
missing (FieldKind.enum _) message field = WireError.unspecified_enum message field
missing _ message field = WireError.missing_field message field

-- One round of the loop, on the field's cardinality and the times that it appeared.
unfoldable pub check_count : String → FieldDescriptor → Cardinality → Entries → Result (Unit {0})
unfolding repeats
check_count message f Cardinality.forbidden entries =
    reject_if (ltb 0 (count (number_of f) entries)) (WireError.field_forbidden message (name_of f))
check_count message f Cardinality.required entries =
    reject_if (count (number_of f) entries == 0) (missing (kind_of f) message (name_of f))
check_count message f (Cardinality.repeated min max distinct) entries = do
  let n = count (number_of f) entries
  reject_if (ltb n min || ltb max n) (WireError.repeated_count message (name_of f) n min max)
  reject_if (distinct && repeats (repeated_bytes (number_of f) entries))
      (WireError.repeated_duplicate message (name_of f))
check_count message f _ entries = ok tt

unfoldable pub check_counts : String → Fields → Entries → Result (Unit {0})
check_counts message Fields.end entries = ok tt
check_counts message (Fields.and f fs) entries = do
  check_count message f (cardinality_of f) entries
  check_counts message fs entries

-- How many variants appeared.
unfoldable pub variants : Fields → Entries → ℕ
variants Fields.end entries = 0
variants (Fields.and f fs) entries =
    (if is_variant (cardinality_of f) && ltb 0 (count (number_of f) entries) then 1 else 0)
    + variants fs entries

unfoldable pub check_oneof : String → Fields → Option Oneof → Entries → Result (Unit {0})
check_oneof message fields none entries = ok tt
check_oneof message fields (some oneof) entries = do
  reject_if (variants fields entries == 0) (WireError.missing_oneof message oneof.name)
  reject_if (ltb 1 (variants fields entries)) (WireError.multiple_oneof_variants message oneof.name)

unfoldable pub check_cardinality : Scanned → Result (Unit {0})
unfolding check_oneof
check_cardinality s = do
  let d = s.descriptor
  check_counts (message_name d) (fields_of d) s.entries
  check_oneof (message_name d) (fields_of d) (oneof_of d) s.entries
