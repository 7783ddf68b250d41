-- ===== src/Validate/Conforms.antt =====
-- Validated messages and the field table of their descriptor: crates/mabel-core/src/validate.rs, `scan`
-- and `check_cardinality`.
use mabel.Base.{
  ℕ, zero, suc, ◌+◌, ◌≤◌, Bool, true, false, ◌&&◌, ◌||◌, ◌≡◌, ◌≢◌, some, List, [], ◌∷◌, ◌++◌,
  String, refl, sym, ap, ◌∙◌, arith, ◌==◌, ltb, Bool-cases, inl, inr,
}
use mathlib.Core.Path.{subst}
use mabel.Base.Bytes.{Bytes, length}
use mabel.Crypto.{Crypto}
use mabel.Validate.Error.{Result, ok, err, ◌>>=◌, ◌>>◌}
use mabel.Validate.Descriptor.{
  Cardinality, FieldDescriptor, MessageDescriptor, Fields, fields_of, find_field, message_name,
  cardinality_of, number_of, is_repeated,
}
use mabel.Validate.Values.{Value, Entries, Scanned, count, field_number}
use mabel.Validate.Scan.{check_order, scan_record, scan_from, scan, repeated_bytes}
use mabel.Validate.Cardinality.{
  bytes_eq, contains, repeats, check_count, check_counts, check_cardinality,
}
use mabel.Validate.Message.{validate_with, validate, message_fields}
use mabel.Validate.Gives.{Gives, Gives-bind, Gives-ok, found}

-- The value is none of these.
abbrev pub IsApart : Bytes → List Bytes → Type 0
IsApart value [] = Unit
IsApart value (other ∷ values) = (other ≢ value) × IsApart value values

-- No two of the values are equal.
abbrev pub AreDistinct : List Bytes → Type 0
AreDistinct [] = Unit
AreDistinct (value ∷ values) = IsApart value values × AreDistinct values

-- The values are distinct, where the table asks for it.
abbrev pub DistinctIf : Bool → List Bytes → Type 0
DistinctIf false values = Unit
DistinctIf true values = AreDistinct values

-- How often a field of the cardinality may appear, with its values.
abbrev pub Counted : Cardinality → ℕ → List Bytes → Type 0
Counted Cardinality.forbidden n values = n ≡ 0
Counted Cardinality.optional n values = n ≤ 1
Counted Cardinality.required n values = n ≡ 1
Counted Cardinality.variant n values = n ≤ 1
Counted (Cardinality.repeated min max distinct) n values =
    (min ≤ n) × (n ≤ max) × DistinctIf distinct values

bytes_eq_refl : (b : Bytes) → bytes_eq b b ≡ true
unfolding bytes_eq
bytes_eq_refl [] = refl
bytes_eq_refl (x ∷ b) = ground (arith, bytes_eq_refl b)

contains-IsApart :
    (value : Bytes) (values : List Bytes) → contains values value ≡ false → IsApart value values
unfolding contains
contains-IsApart value [] h = tt
contains-IsApart value (other ∷ values) h =
    let equal = bytes_eq_refl value in
    let apart : other ≢ value = λ same.
      let now : bytes_eq other value ≡ true = ap (λ b. bytes_eq b value) same ∙ equal in
      ground (arith, now, h) in
    (apart, contains-IsApart value values (ground (arith, h)))

repeats-AreDistinct : (values : List Bytes) → repeats values ≡ false → AreDistinct values
unfolding repeats
repeats-AreDistinct [] h = tt
repeats-AreDistinct (value ∷ values) h = (
  contains-IsApart value values (ground (arith, h)),
  repeats-AreDistinct values (ground (arith, h)),
)

repeats-DistinctIf :
    (distinct : Bool) (values : List Bytes)
    → (distinct && repeats values) ≡ false
    → DistinctIf distinct values
repeats-DistinctIf false values h = tt
repeats-DistinctIf true values h = repeats-AreDistinct values h

count-append :
    (k number : ℕ) (v : Value) (es : Entries)
    → count k (es ++ (number, v) ∷ []) ≡ count k es + count k ((number, v) ∷ [])
unfolding count
count-append k number v [] = omega arith
count-append k number v ((j, w) ∷ es) = omega (arith, count-append k number v es)

-- Every field of the table that is not repeated appears once at most.
record Single (d : MessageDescriptor) (es : Entries) : Type 0 where
  at :
      (k : ℕ) (f : FieldDescriptor)
      → find_field (fields_of d) k ≡ some f
      → is_repeated (cardinality_of f) ≡ false
      → count k es ≤ 1

Single-append :
    (d : MessageDescriptor) (name : String) (es : Entries) (number last : ℕ) (v : Value)
    (field : FieldDescriptor)
    → Single d es
    → find_field (fields_of d) number ≡ some field
    → check_order name field number last (count number es) ≡ ok tt
    → Single d (es ++ (number, v) ∷ [])
unfolding check_order count ◌>>=◌
Single-append d name es number last v field single is_field order = record {
  at = λ k f is_f once. elim (Bool-cases (number == k)) [
    | inr other ↦ ground (arith, other, count-append k number v es, single.at k f is_f once)
    | inl same ↦ ground (arith, same, count-append k number v es, is_field, is_f, once, order)
  ];
}

module _ (c : Crypto) (rec : MessageDescriptor → Bytes → ℕ → Result Scanned) where
  scan_record-Single :
      (d : MessageDescriptor) (depth : ℕ) (input : Bytes) (es : Entries) (last : ℕ)
      → Single d es
      → Gives (λ r. Single d (es ++ (r.0, r.1) ∷ [])) (scan_record c rec d depth input es last)
  unfolding scan_record
  scan_record-Single d depth input es last single = Gives-bind _ _ λ (key, rest) _.
      Gives-bind _ _ λ field is_field. Gives-bind _ _ λ _ order. Gives-bind _ _ λ _ _.
        Gives-bind _ _ λ _ _. Gives-bind _ _ λ (v, rest') _.
          Gives-ok (field_number key, v, rest')
            (Single-append d (message_name d) es (field_number key) last v field single
              (found _ _ field is_field) order)

  scan_from-Single :
      (fuel : ℕ) (d : MessageDescriptor) (depth : ℕ) (input : Bytes) (es : Entries) (last : ℕ)
      → Single d es
      → Gives (Single d) (scan_from c rec fuel d depth input es last)
  unfolding scan_from
  scan_from-Single fuel d depth [] es last single = Gives-ok es single
  scan_from-Single zero d depth (b ∷ bs) es last single = record { holds = λ es h. cc }
  scan_from-Single (suc fuel) d depth (b ∷ bs) es last single =
      Gives-bind _ _ λ (number, v, rest) h.
        scan_from-Single fuel d depth rest (es ++ (number, v) ∷ []) number
          ((scan_record-Single d depth (b ∷ bs) es last single).holds (number, v, rest) h)

  record Scans (d : MessageDescriptor) (s : Scanned) : Type 0 where
    descriptor_is : s.descriptor ≡ d
    single : Single d s.entries

  scan-Scans :
      (d : MessageDescriptor) (input : Bytes) (depth : ℕ)
      → Gives (Scans d) (scan c rec d input depth)
  unfolding scan count
  scan-Scans d input depth = Gives-bind _ _ λ _ _. Gives-bind _ _ λ es h. Gives-ok _ (record {
    descriptor_is = refl;
    single =
        (scan_from-Single (length input) d depth input [] 0
            (record { at = λ k f e once. omega arith })).holds
          es h;
  })

check_count-Counted :
    (name : String) (f : FieldDescriptor) (k : Cardinality) (es : Entries)
    → check_count name f k es ≡ ok tt
    → ((is_repeated k ≡ false) → count (number_of f) es ≤ 1)
    → Counted k (count (number_of f) es) (repeated_bytes (number_of f) es)
unfolding check_count ◌>>=◌
check_count-Counted name f Cardinality.forbidden es h once = ground arith
check_count-Counted name f Cardinality.optional es h once = once refl
check_count-Counted name f Cardinality.required es h once = ground (arith, once refl)
check_count-Counted name f Cardinality.variant es h once = once refl
check_count-Counted name f (Cardinality.repeated min max distinct) es h once =
    let n = count (number_of f) es in
    elim (Bool-cases (ltb n min || ltb max n)) [
      | inl outside ↦ absurd (ground (arith, outside))
      | inr inside ↦ elim (Bool-cases (distinct && repeats (repeated_bytes (number_of f) es))) [
        | inl again ↦ absurd (ground (arith, inside, again))
        | inr apart ↦ (
          ground (arith, inside),
          ground (arith, inside),
          repeats-DistinctIf distinct (repeated_bytes (number_of f) es) apart,
        )
      ]
    ]

some_injective : {f g : FieldDescriptor} → some f ≡ some g → f ≡ g
some_injective e = cc

both_ok : (m n : Result (Unit {0})) → m >> n ≡ ok tt → (m ≡ ok tt) × (n ≡ ok tt)
unfolding ◌>>=◌
both_ok (ok a) n h = (refl, h)
both_ok (err e) n h = cc
both_ok Result.panic n h = cc
both_ok Result.spent n h = cc

checked_field :
    (name : String) (fs : Fields) (es : Entries) (number : ℕ) (f : FieldDescriptor)
    → check_counts name fs es ≡ ok tt
    → find_field fs number ≡ some f
    → (check_count name f (cardinality_of f) es ≡ ok tt) × (number_of f ≡ number)
unfolding check_counts find_field
checked_field name Fields.end es number f h e = cc
checked_field name (Fields.and g fs) es number f h e =
    let (first, others) =
      both_ok (check_count name g (cardinality_of g) es) (check_counts name fs es) h in
    elim (Bool-cases (number_of g == number)) [
      | inl here ↦
          let same : g ≡ f = some_injective (ground (arith, here, e)) in
          (
            subst (λ f. check_count name f (cardinality_of f) es ≡ ok tt) same first,
            ap number_of (sym same) ∙ ground (arith, here),
          )
      | inr later ↦ checked_field name fs es number f others (ground (arith, later, e))
    ]

checked_counts :
    (s : Scanned)
    → check_cardinality s ≡ ok tt
    → check_counts (message_name s.descriptor) (fields_of s.descriptor) s.entries ≡ ok tt
unfolding check_cardinality
checked_counts s h =
    (both_ok (check_counts (message_name s.descriptor) (fields_of s.descriptor) s.entries) _ h).0

Scans-Counted :
    (d : MessageDescriptor) (s : Scanned) (number : ℕ) (f : FieldDescriptor)
    → s.descriptor ≡ d
    → Single d s.entries
    → check_cardinality s ≡ ok tt
    → find_field (fields_of d) number ≡ some f
    → Counted (cardinality_of f) (count number s.entries) (repeated_bytes number s.entries)
Scans-Counted d s number f same single checked is_f =
    let (counted, numbered) =
      checked_field (message_name s.descriptor) (fields_of s.descriptor) s.entries number f
        (checked_counts s checked) (ap (λ d. find_field (fields_of d) number) same ∙ is_f) in
    let c =
      check_count-Counted (message_name s.descriptor) f (cardinality_of f) s.entries counted
        (λ once. rw numbered (single.at number f is_f once)) in
    subst (λ n. Counted (cardinality_of f) (count n s.entries) (repeated_bytes n s.entries))
      numbered c

-- In a message that validates, a field of the table appears as often as its cardinality says: never if
-- it is forbidden, once if it is required, once at most if it is optional or a variant, and within its
-- bounds, no two values equal where they must be distinct, if it is repeated.
pub message_fields-Counted :
    (c : Crypto) (d : MessageDescriptor) (input : Bytes) (s : Scanned) (number : ℕ)
    (f : FieldDescriptor)
    → message_fields c d input ≡ ok s
    → find_field (fields_of d) number ≡ some f
    → Counted (cardinality_of f) (count number s.entries) (repeated_bytes number s.entries)
unfolding message_fields validate validate_with
message_fields-Counted c d input s number f h is_f = counted.holds s h
  where
    counted :
        Gives
          (λ s.
            Counted (cardinality_of f) (count number s.entries) (repeated_bytes number s.entries))
          (validate_with c (validate c (length input)) d input 0)
    counted = Gives-bind _ _ λ _ _. Gives-bind _ _ λ s h. Gives-bind _ _ λ _ checked.
        Gives-bind _ _ λ _ _.
          let scans = (scan-Scans c (validate c (length input)) d input 0).holds s h in
          Gives-ok s (Scans-Counted d s number f scans.descriptor_is scans.single checked is_f)
