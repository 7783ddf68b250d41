-- ===== src/Validate/Canonical.antt =====
-- Scanned messages and the encoder of their entries: crates/mabel-core/src/validate.rs, `scan`.
use mabel.Base.{
  ℕ, zero, suc, ◌+◌, ◌-◌, ◌*◌, ◌/◌, ◌%◌, ◌^◌, ◌≤◌, false, not, ◌≡◌, none, some, [], ◌∷◌, ◌++◌,
  String, refl, sym, ap, ◌∙◌, arith, ◌==◌, ltb, leb, Bool-cases, inl, inr,
}
use mathlib.Core.List.{append_assoc, append-nil}
use mathlib.Core.Path.{subst}
use mabel.Base.Bytes.{Bytes, length, take, drop}
use mabel.Crypto.{Crypto}
use mabel.Validate.Error.{WireError, Result, ok, ok_or, reject_if}
use mabel.Validate.Descriptor.{
  WireKind, wire_number, wire_kind, kind_of, FieldDescriptor, MessageDescriptor, Fields, fields_of,
  find_field, message_name,
}
use mabel.Validate.Values.{Value, Entries, Scanned, field_number}
use mabel.Validate.Scan.{check_wire, read_value, scan_record, scan_from, scan}
use mabel.Validate.Message.{validate_with, validate, message_fields}
use mabel.Validate.Varint.{put_varint, AreBytes, read_varint_iff}
use mabel.Validate.Gives.{Gives, Gives-bind, Gives-ok, accepted, found}

-- The encoding of a value, of a field and of a message.
unfoldable pub put_value : Value → Bytes
put_value (Value.varint v) = put_varint 9 v
put_value (Value.bytes b) = put_varint 9 (length b) ++ b

abbrev kind_of_value : Value → WireKind
kind_of_value (Value.varint _) = WireKind.varint
kind_of_value (Value.bytes _) = WireKind.len

unfoldable pub put_record : ℕ → Value → Bytes
unfolding put_value wire_number
put_record number v = put_varint 9 (number * 8 + wire_number (kind_of_value v)) ++ put_value v

unfoldable pub put_entries : Entries → Bytes
unfolding put_record
put_entries [] = []
put_entries ((number, v) ∷ es) = put_record number v ++ put_entries es

put_entries-append :
    (es : Entries) (number : ℕ) (v : Value)
    → put_entries (es ++ (number, v) ∷ []) ≡ put_entries es ++ put_record number v
unfolding put_entries
put_entries-append [] number v = append-nil _
put_entries-append ((k, w) ∷ es) number v =
    ap (λ bs. put_record k w ++ bs) (put_entries-append es number v)
    ∙ sym (append_assoc (put_record k w) (put_entries es) (put_record number v))

suffix : (xs ys : Bytes) → AreBytes (xs ++ ys) → AreBytes ys
suffix [] ys h = h
suffix (x ∷ xs) ys h = suffix xs ys h.1

take-drop : (n : ℕ) (b : Bytes) → take n b ++ drop n b ≡ b
unfolding take drop
take-drop zero b = refl
take-drop (suc n) [] = refl
take-drop (suc n) (x ∷ b) = ap (λ bs. x ∷ bs) (take-drop n b)

length-take : (n : ℕ) (b : Bytes) → n ≤ length b → length (take n b) ≡ n
unfolding take
length-take zero b h = refl
length-take (suc n) [] h = absurd (omega arith)
length-take (suc n) (x ∷ b) h = omega (arith, length-take n b (omega arith))

-- A value of the wire kind, read where its encoding stands.
record Puts (w : WireKind) (input : Bytes) (v : Value) (rest : Bytes) : Type 0 where
  kind_is : kind_of_value v ≡ w
  bytes_are : input ≡ put_value v ++ rest

-- The key of a field that the table has spells its number and its wire kind.
key-put :
    (fields : Fields) (key : ℕ) (field : FieldDescriptor) (wire : ℕ) (e e' : WireError)
    → find_field fields (2 ^ 32 - 1) ≡ none
    → ok_or (find_field fields (field_number key)) e ≡ ok field
    → reject_if (not (key % 8 == wire)) e' ≡ ok tt
    → field_number key * 8 + wire ≡ key
unfolding field_number
key-put fields key field wire e e' unused is_field is_wire =
    let same : (not (key % 8 == wire)) ≡ false = accepted (not (key % 8 == wire)) e' is_wire in
    let at : find_field fields (field_number key) ≡ some field = found _ e field is_field in
    elim (Bool-cases (leb (2 ^ 32) (key / 8))) [
      | inl past ↦ absurd (ground (arith, past, at, unused))
      | inr fits ↦ ground (arith, fits, same)
    ]

module _ (c : Crypto) (rec : MessageDescriptor → Bytes → ℕ → Result Scanned) where
  read_value-Puts :
      (w : WireKind) (name : String) (field : FieldDescriptor) (input : Bytes) (depth : ℕ)
      → AreBytes input
      → Gives (λ r. Puts w input r.0 r.1) (read_value c rec w name field input depth)
  unfolding read_value put_value
  read_value-Puts WireKind.varint name field input depth bytes = Gives-bind _ _ λ (v, rest) h.
      Gives-bind _ _ λ _ _.
        Gives-ok (Value.varint v, rest)
          (record { kind_is = refl; bytes_are = ((read_varint_iff name input v rest bytes).0 h).1 })
  read_value-Puts WireKind.len name field input depth bytes = Gives-bind _ _ λ (len, rest) h.
      Gives-bind _ _ λ _ fits. Gives-bind _ _ λ _ _.
        let enough : len ≤ length rest = ground (arith, accepted (ltb (length rest) len) _ fits) in
        let slice = take len rest in
        let whole : input ≡ put_varint 9 len ++ (slice ++ drop len rest) =
          ((read_varint_iff name input len rest bytes).0 h).1
          ∙ ap (λ bs. put_varint 9 len ++ bs) (sym (take-drop len rest)) in
        Gives-ok (Value.bytes (take len rest), drop len rest)
          (record {
            kind_is = refl;
            bytes_are =
                whole
                ∙ sym (append_assoc (put_varint 9 len) slice (drop len rest))
                ∙ ap (λ n. (put_varint 9 n ++ slice) ++ drop len rest)
                    (sym (length-take len rest enough));
          })

  scan_record-Puts :
      (d : MessageDescriptor) (depth : ℕ) (input : Bytes) (entries : Entries) (last : ℕ)
      → find_field (fields_of d) (2 ^ 32 - 1) ≡ none
      → AreBytes input
      → Gives
          (λ r. input ≡ put_record r.0 r.1 ++ r.2)
          (scan_record c rec d depth input entries last)
  unfolding scan_record check_wire put_record
  scan_record-Puts d depth input entries last unused bytes = Gives-bind _ _ λ (key, rest) at_key.
      Gives-bind _ _ λ field is_field. Gives-bind _ _ λ _ _. Gives-bind _ _ λ _ wire.
        Gives-bind _ _ λ _ _. Gives-bind _ _ λ (v, rest') at_value.
          let whole = ((read_varint_iff (message_name d) input key rest bytes).0 at_key).1 in
          let value =
            (read_value-Puts (wire_kind (kind_of field)) (message_name d) field rest depth
                (suffix (put_varint 9 key) rest (subst AreBytes whole bytes))).holds
              (v, rest') at_value in
          let number : field_number key * 8 + wire_number (kind_of_value v) ≡ key =
            ap (λ w. field_number key * 8 + wire_number w) value.kind_is
            ∙ key-put (fields_of d) key field _ _ _ unused is_field wire in
          Gives-ok (field_number key, v, rest')
            (whole
              ∙ ap (λ bs. put_varint 9 key ++ bs) value.bytes_are
              ∙ sym (append_assoc (put_varint 9 key) (put_value v) rest')
              ∙ ap (λ n. (put_varint 9 n ++ put_value v) ++ rest') (sym number))

  scan_from-Puts :
      (fuel : ℕ) (d : MessageDescriptor) (depth : ℕ) (input : Bytes) (entries : Entries) (last : ℕ)
      (before : Bytes)
      → find_field (fields_of d) (2 ^ 32 - 1) ≡ none
      → AreBytes input
      → before ≡ put_entries entries
      → Gives
          (λ es. before ++ input ≡ put_entries es)
          (scan_from c rec fuel d depth input entries last)
  unfolding scan_from
  scan_from-Puts fuel d depth [] entries last before unused bytes so_far =
      Gives-ok entries (append-nil before ∙ so_far)
  scan_from-Puts zero d depth (b ∷ bs) entries last before unused bytes so_far = record {
    holds = λ es h. cc;
  }
  scan_from-Puts (suc fuel) d depth (b ∷ bs) entries last before unused bytes so_far =
      Gives-bind _ _ λ (number, v, rest) h.
        let one =
          (scan_record-Puts d depth (b ∷ bs) entries last unused bytes).holds (number, v, rest) h in
        let later =
          scan_from-Puts fuel d depth rest (entries ++ (number, v) ∷ []) number
            (before ++ put_record number v) unused
            (suffix (put_record number v) rest (subst AreBytes one bytes))
            (ap (λ bs. bs ++ put_record number v) so_far
              ∙ sym (put_entries-append entries number v)) in
        record {
          holds = λ es done.
              ap (λ bs. before ++ bs) one
              ∙ sym (append_assoc before (put_record number v) rest)
              ∙ later.holds es done;
        }

  scan-Puts :
      (d : MessageDescriptor) (input : Bytes) (depth : ℕ)
      → find_field (fields_of d) (2 ^ 32 - 1) ≡ none
      → AreBytes input
      → Gives (λ s. input ≡ put_entries s.entries) (scan c rec d input depth)
  unfolding scan put_entries
  scan-Puts d input depth unused bytes = Gives-bind _ _ λ _ _. Gives-bind _ _ λ es h.
      Gives-ok _
        ((scan_from-Puts (length input) d depth input [] 0 [] unused bytes refl).holds es h)

-- Where the table of a message has no field with the number 2^32 - 1, by which the scanner reports every
-- larger number, the bytes of a message that validates are the encoding of the entries that were read: a
-- validated message has no other encoding.
pub message_fields-put_entries :
    (c : Crypto) (d : MessageDescriptor) (input : Bytes) (s : Scanned)
    → AreBytes input
    → find_field (fields_of d) (2 ^ 32 - 1) ≡ none
    → message_fields c d input ≡ ok s
    → input ≡ put_entries s.entries
unfolding message_fields validate validate_with
message_fields-put_entries c d input s bytes unused h = canonical.holds s h
  where
    canonical :
        Gives
          (λ s. input ≡ put_entries s.entries)
          (validate_with c (validate c (length input)) d input 0)
    canonical = Gives-bind _ _ λ _ _. Gives-bind _ _ λ s h. Gives-bind _ _ λ _ _.
        Gives-bind _ _ λ _ _.
          Gives-ok s ((scan-Puts c (validate c (length input)) d input 0 unused bytes).holds s h)
