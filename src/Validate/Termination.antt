-- ===== src/Validate/Termination.antt =====
-- The fuel of the validator of crates/mabel-core/src/validate.rs: every round of the scan takes a byte.
use mabel.Base.{
  ℕ, zero, suc, ◌+◌, ◌*◌, ◌%◌, ◌^◌, ◌≤◌, ◌<◌, Option, none, some, List, [], ◌∷◌, String, arith,
}
use mabel.Base.Bytes.{Bytes, length, take, drop}
use mabel.Crypto.{Crypto}
use mabel.Validate.Error.{WireError, Result}
use mabel.Validate.Descriptor.{
  WireKind, Cardinality, FieldKind, FieldDescriptor, StringRule, MessageDescriptor, message_name,
  cardinality_of,
}
use mabel.Validate.Values.{
  Value, Entries, Scanned, read_varint_from, read_varint, check_varint, check_bytes, count,
  field_number, check_length, check_string, with_reason,
}
use mabel.Validate.Scan.{check_order, check_wire, check_room, read_value, scan_record}
use mabel.Validate.Settles.{
  Settles, Settles-ok, Settles-err, Settles-panic, Settles-bind, Settles-reject_if, Settles-ok_or,
}

pub length-take_le : (n : ℕ) (b : Bytes) → length (take n b) ≤ length b
unfolding take
length-take_le zero b = omega arith
length-take_le (suc n) [] = omega arith
length-take_le (suc n) (x ∷ b) = omega (arith, length-take_le n b)

pub length-drop_le : (n : ℕ) (b : Bytes) → length (drop n b) ≤ length b
unfolding drop
length-drop_le zero b = omega arith
length-drop_le (suc n) [] = omega arith
length-drop_le (suc n) (x ∷ b) = omega (arith, length-drop_le n b)

read_varint_from-Settles :
    (message : String) (input : Bytes) (value shift : ℕ)
    → Settles (λ r. length r.1 < length input) (read_varint_from message input value shift)
unfolding read_varint_from
read_varint_from-Settles message [] value shift = Settles-err _
read_varint_from-Settles message (b ∷ rest) value shift =
    let more = read_varint_from-Settles message rest (value + b % 128 * 2 ^ shift) (shift + 7) in
    record {
      returns = λ h. ground (arith, more.returns);
      holds = λ r h. ground (arith, more.holds r);
    }

pub any_unit :
    {A : Type 0} {P : A → Type 0} {o : Result A} → Settles P o → Settles (λ _. Unit {0}) o
any_unit s = record { returns = s.returns; holds = λ a h. tt }

read_varint-Settles :
    (message : String) (input : Bytes)
    → Settles (λ r. length r.1 < length input) (read_varint message input)
unfolding read_varint
read_varint-Settles message input = read_varint_from-Settles message input 0 0

check_varint-Settles :
    (k : FieldKind) (field message : String) (value : ℕ)
    → Settles (λ _. Unit {0}) (check_varint k field message value)
unfolding check_varint
check_varint-Settles (FieldKind.enum values) f m v =
    Settles-bind _ _ (Settles-reject_if _ _) λ _ _ _. any_unit (Settles-reject_if _ _)
check_varint-Settles (FieldKind.varint min max) f m v =
    Settles-bind _ _ (Settles-reject_if _ _) λ _ _ _. any_unit (Settles-reject_if _ _)
check_varint-Settles _ f m v = Settles-panic

check_length-Settles :
    (field message : String) (max : ℕ) (slice : Bytes)
    → Settles (λ _. Unit {0}) (check_length field message max slice)
unfolding check_length
check_length-Settles f m max slice =
    Settles-bind _ _ (Settles-reject_if _ _) λ _ _ _. any_unit (Settles-reject_if _ _)

with_reason-Settles :
    (o : Option String) (e : String → WireError) → Settles (λ _. Unit {0}) (with_reason o e)
with_reason-Settles none e = Settles-ok tt tt
with_reason-Settles (some r) e = Settles-err _

-- Every value of length-delimited entries is shorter than `n`.
abbrev pub SmallValue : ℕ → Value → Type 0
SmallValue n (Value.varint _) = Unit
SmallValue n (Value.bytes b) = length b < n

abbrev pub Small : ℕ → Entries → Type 0
Small n [] = Unit
Small n ((_, v) ∷ es) = SmallValue n v × Small n es

pub SmallValue-le : (m n : ℕ) (v : Value) → m ≤ n → SmallValue m v → SmallValue n v
SmallValue-le m n (Value.varint _) h s = tt
SmallValue-le m n (Value.bytes b) h s = omega arith

check_order-Settles :
    (name : String) (f : FieldDescriptor) (number last seen : ℕ)
    → Settles (λ _. Unit {0}) (check_order name f number last seen)
unfolding check_order
check_order-Settles name f number last seen =
    Settles-bind _ _ (Settles-reject_if _ _) λ _ _ _. any_unit (Settles-reject_if _ _)

check_room-Settles :
    (name : String) (f : FieldDescriptor) (k : Cardinality) (seen : ℕ)
    → Settles (λ _. Unit {0}) (check_room name f k seen)
unfolding check_room
check_room-Settles name f (Cardinality.repeated min max distinct) seen =
    any_unit (Settles-reject_if _ _)
check_room-Settles name f _ seen = Settles-ok tt tt

-- The validation of a shorter message settles, with values shorter than it.
abbrev pub SettlesBelow : ℕ → (MessageDescriptor → Bytes → ℕ → Result Scanned) → Type 0
SettlesBelow n rec =
    (d : MessageDescriptor) (input : Bytes) (depth : ℕ)
    → length input < n
    → Settles (λ s. Small (length input) s.entries) (rec d input depth)

module _ (c : Crypto) (rec : MessageDescriptor → Bytes → ℕ → Result Scanned) (n : ℕ)
    (below : SettlesBelow n rec) where
  check_string-Settles :
      (rule : StringRule) (field message : String) (slice : Bytes) (chars : List ℕ)
      → Settles (λ _. Unit {0}) (check_string c rule field message slice chars)
  unfolding check_string
  check_string-Settles StringRule.utf8 f m slice chars = Settles-ok tt tt
  check_string-Settles StringRule.display_name f m slice chars = with_reason-Settles _ _
  check_string-Settles StringRule.hostname f m slice chars = with_reason-Settles _ _
  check_string-Settles StringRule.email f m slice chars = with_reason-Settles _ _

  check_bytes-Settles :
      (k : FieldKind) (field message : String) (slice : Bytes) (depth : ℕ)
      → length slice < n
      → Settles (λ _. Unit {0}) (check_bytes c rec k field message slice depth)
  unfolding check_bytes
  check_bytes-Settles (FieldKind.bytes exact max) f m slice depth h =
      Settles-bind _ _ (Settles-reject_if _ _) λ _ _ _. check_length-Settles f m max slice
  check_bytes-Settles (FieldKind.string max rule) f m slice depth h =
      Settles-bind _ _ (check_length-Settles f m max slice) λ _ _ _.
        Settles-bind _ _ (Settles-ok_or _ _) λ chars _ _. check_string-Settles rule f m slice chars
  check_bytes-Settles (FieldKind.nested d max) f m slice depth h =
      Settles-bind _ _ (check_length-Settles f m max slice)
        λ _ _ _. Settles-bind _ _ (below d slice (depth + 1) h) λ _ _ _. Settles-ok tt tt
  check_bytes-Settles (FieldKind.message d) f m slice depth h =
      Settles-bind _ _ (below d slice (depth + 1) h) λ _ _ _. Settles-ok tt tt
  check_bytes-Settles (FieldKind.detached d) f m slice depth h =
      Settles-bind _ _ (below d slice 0 h) λ _ _ _. Settles-ok tt tt
  check_bytes-Settles _ f m slice depth h = Settles-panic

  read_value-Settles :
      (w : WireKind) (name : String) (field : FieldDescriptor) (input : Bytes) (depth : ℕ)
      → length input ≤ n
      → Settles
          (λ r. SmallValue (length input) r.0 × (length r.1 < length input))
          (read_value c rec w name field input depth)
  unfolding read_value
  read_value-Settles WireKind.varint name field input depth h =
      Settles-bind _ _ (read_varint-Settles name input) λ (v, rest) _ shorter.
        Settles-bind _ _ (check_varint-Settles _ _ _ v)
          λ _ _ _. Settles-ok (Value.varint v, rest) (tt, shorter)
  read_value-Settles WireKind.len name field input depth h =
      Settles-bind _ _ (read_varint-Settles name input) λ (len, rest) _ shorter.
        Settles-bind _ _ (Settles-reject_if _ _) λ _ _ _.
          Settles-bind _ _
            (check_bytes-Settles _ _ _ (take len rest) depth
              (omega (arith, length-take_le len rest)))
            λ _ _ _.
              Settles-ok (Value.bytes (take len rest), drop len rest)
                (omega (arith, length-take_le len rest), omega (arith, length-drop_le len rest))

  pub scan_record-Settles :
      (d : MessageDescriptor) (depth : ℕ) (input : Bytes) (entries : Entries) (last : ℕ)
      → length input ≤ n
      → Settles
          (λ r. SmallValue (length input) r.1 × (length r.2 < length input))
          (scan_record c rec d depth input entries last)
  unfolding scan_record check_wire
  scan_record-Settles d depth input entries last h =
      Settles-bind _ _ (read_varint-Settles _ input) λ (key, rest) _ shorter.
        Settles-bind _ _ (Settles-ok_or _ _) λ f _ _.
          Settles-bind _ _ (check_order-Settles _ f _ last _) λ _ _ _.
            Settles-bind _ _ (Settles-reject_if _ _) λ _ _ _.
              Settles-bind _ _
                (check_room-Settles (message_name d) f (cardinality_of f)
                  (count (field_number key) entries))
                λ _ _ _.
                  Settles-bind _ _ (read_value-Settles _ _ f rest depth (omega arith))
                    λ (v, rest') _ (small, after).
                      Settles-ok (_, v, rest')
                        (
                          SmallValue-le (length rest) (length input) v (omega arith) small,
                          omega arith,
                        )
