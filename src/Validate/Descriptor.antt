-- ===== src/Validate/Descriptor.antt =====
-- What the validator knows of a message type: `MessageDescriptor` and its parts of
-- crates/mabel-core/src/validate.rs. A cross-field rule, a function pointer in the source, is here
-- the name of that function.
use mabel.Base.{ℕ, Bool, true, false, Option, none, some, List, String, ◌==◌, if◌then◌else◌}

pub data WireKind : Type 0 where
  varint len : WireKind

unfoldable pub wire_number : WireKind → ℕ
wire_number WireKind.varint = 0
wire_number WireKind.len = 2

pub data Cardinality : Type 0 where
  forbidden optional required variant : Cardinality
  repeated : (min max : ℕ) (distinct : Bool) → Cardinality

pub record EnumValue : Type 0 where
  pub number : ℕ
  pub name : String

pub data StringRule : Type 0 where
  utf8 display_name hostname email : StringRule

pub record Oneof : Type 0 where
  pub name : String
  pub first_number : ℕ

pub data CrossFieldCheck : Type 0 where
  check_raw_root check_identity_root check_membership_invitation check_membership_acceptance
        check_event_body :
      CrossFieldCheck

mutual
  pub data FieldKind : Type 0 where
    varint : (min max : ℕ) → FieldKind
    enum : (values : List EnumValue) → FieldKind
    bytes : (exact : Option ℕ) (max : ℕ) → FieldKind
    string : (max : ℕ) (rule : StringRule) → FieldKind
    nested : (descriptor : MessageDescriptor) (max : ℕ) → FieldKind
    message : (descriptor : MessageDescriptor) → FieldKind
    detached : (descriptor : MessageDescriptor) → FieldKind

  pub data FieldDescriptor : Type 0 where
    field_descriptor :
        (number : ℕ) (name : String) (cardinality : Cardinality) (kind : FieldKind)
        → FieldDescriptor

  pub data Fields : Type 0 where
    end : Fields
    and : FieldDescriptor → Fields → Fields

  pub data MessageDescriptor : Type 0 where
    message_descriptor :
        (name : String) (max_bytes : ℕ) (fields : Fields) (oneof : Option Oneof)
        (check : Option CrossFieldCheck)
        → MessageDescriptor

abbrev pub number_of : FieldDescriptor → ℕ
number_of (FieldDescriptor.field_descriptor number _ _ _) = number

abbrev pub name_of : FieldDescriptor → String
name_of (FieldDescriptor.field_descriptor _ name _ _) = name

abbrev pub cardinality_of : FieldDescriptor → Cardinality
cardinality_of (FieldDescriptor.field_descriptor _ _ cardinality _) = cardinality

abbrev pub kind_of : FieldDescriptor → FieldKind
kind_of (FieldDescriptor.field_descriptor _ _ _ kind) = kind

abbrev pub message_name : MessageDescriptor → String
message_name (MessageDescriptor.message_descriptor name _ _ _ _) = name

abbrev pub max_bytes_of : MessageDescriptor → ℕ
max_bytes_of (MessageDescriptor.message_descriptor _ max_bytes _ _ _) = max_bytes

abbrev pub fields_of : MessageDescriptor → Fields
fields_of (MessageDescriptor.message_descriptor _ _ fields _ _) = fields

abbrev pub oneof_of : MessageDescriptor → Option Oneof
oneof_of (MessageDescriptor.message_descriptor _ _ _ oneof _) = oneof

abbrev pub check_of : MessageDescriptor → Option CrossFieldCheck
check_of (MessageDescriptor.message_descriptor _ _ _ _ check) = check

unfoldable pub wire_kind : FieldKind → WireKind
wire_kind (FieldKind.varint _ _) = WireKind.varint
wire_kind (FieldKind.enum _) = WireKind.varint
wire_kind (FieldKind.bytes _ _) = WireKind.len
wire_kind (FieldKind.string _ _) = WireKind.len
wire_kind (FieldKind.nested _ _) = WireKind.len
wire_kind (FieldKind.message _) = WireKind.len
wire_kind (FieldKind.detached _) = WireKind.len

unfoldable pub find_field : Fields → ℕ → Option FieldDescriptor
find_field Fields.end number = none
find_field (Fields.and f fs) number =
    let rest = find_field fs number in if number_of f == number then some f else rest

abbrev pub is_variant : Cardinality → Bool
is_variant Cardinality.variant = true
is_variant _ = false

abbrev pub is_repeated : Cardinality → Bool
is_repeated (Cardinality.repeated _ _ _) = true
is_repeated _ = false
