-- ===== src/Validate/Sizes.antt =====
-- The sizes of what a scan of crates/mabel-core/src/validate.rs holds.
use mabel.Base.{ℕ, zero, suc, ◌≤◌, ◌<◌, ◌≡◌, some, [], ◌∷◌, ◌++◌, arith}
use mabel.Base.Bytes.{Bytes, length}
use mabel.Crypto.{Crypto}
use mabel.Validate.Error.{Result}
use mabel.Validate.Descriptor.{Fields, MessageDescriptor}
use mabel.Validate.Values.{Value, Entries, Scanned}
use mabel.Validate.Scan.{first_value, bytes_value, bytes_of, oneof_in, oneof, scan_from, scan}
use mabel.Validate.Settles.{Settles, Settles-ok, Settles-bind, Settles-reject_if}
use mabel.Validate.Termination.{Small, SmallValue, SmallValue-le, SettlesBelow, scan_record-Settles}

Small-append :
    (n number : ℕ) (v : Value) (es : Entries)
    → Small n es
    → SmallValue n v
    → Small n (es ++ (number, v) ∷ [])
Small-append n number v [] h s = (s, tt)
Small-append n number v ((j, w) ∷ es) h s = (h.0, Small-append n number v es h.1 s)

Small-le : (m n : ℕ) (es : Entries) → m ≤ n → Small m es → Small n es
Small-le m n [] h s = tt
Small-le m n ((k, v) ∷ es) h s = (SmallValue-le m n v h s.0, Small-le m n es h s.1)

first_value-lt :
    (n number : ℕ) (es : Entries) (b : Bytes)
    → Small n es
    → first_value bytes_value number es ≡ some b
    → length b < n
unfolding first_value
first_value-lt n number [] b h e = cc
first_value-lt n number ((j, Value.varint v) ∷ es) b h e =
    ground (arith, first_value-lt n number es b h.1)
first_value-lt n number ((j, Value.bytes x) ∷ es) b h e =
    ground (arith, first_value-lt n number es b h.1)

pub bytes_of-lt :
    (n number : ℕ) (s : Scanned) (b : Bytes)
    → Small n s.entries
    → bytes_of s number ≡ some b
    → length b < n
unfolding bytes_of
bytes_of-lt n number s b h e = first_value-lt n number s.entries b h e

oneof_in-lt :
    (n : ℕ) (fs : Fields) (es : Entries) (k : ℕ) (b : Bytes)
    → Small n es
    → oneof_in fs es ≡ some (k, b)
    → length b < n
unfolding oneof_in
oneof_in-lt n fs [] k b h e = cc
oneof_in-lt n fs ((j, Value.varint v) ∷ es) k b h e = ground (arith, oneof_in-lt n fs es k b h.1)
oneof_in-lt n fs ((j, Value.bytes x) ∷ es) k b h e = ground (arith, oneof_in-lt n fs es k b h.1)

pub oneof-lt :
    (n : ℕ) (s : Scanned) (k : ℕ) (b : Bytes)
    → Small n s.entries
    → oneof s ≡ some (k, b)
    → length b < n
unfolding oneof
oneof-lt n s k b h e = oneof_in-lt n _ s.entries k b h e

module _ (c : Crypto) (rec : MessageDescriptor → Bytes → ℕ → Result Scanned) where
  scan_from-Settles :
      (n fuel : ℕ) (d : MessageDescriptor) (depth : ℕ) (input : Bytes) (es : Entries) (last : ℕ)
      → SettlesBelow n rec
      → length input ≤ fuel
      → length input ≤ n
      → Small n es
      → Settles (Small n) (scan_from c rec fuel d depth input es last)
  unfolding scan_from
  scan_from-Settles n fuel d depth [] es last below f h small = Settles-ok es small
  scan_from-Settles n zero d depth (b ∷ bs) es last below f h small = absurd (omega arith)
  scan_from-Settles n (suc fuel) d depth (b ∷ bs) es last below f h small =
      Settles-bind _ _ (scan_record-Settles c rec n below d depth (b ∷ bs) es last h)
        λ (k, v, rest) _ (vs, shorter).
          scan_from-Settles n fuel d depth rest (es ++ (k, v) ∷ []) k below (omega arith)
            (omega arith) (Small-append n k v es small (SmallValue-le _ n v h vs))

  pub scan-Settles :
      (d : MessageDescriptor) (input : Bytes) (depth : ℕ)
      → SettlesBelow (length input) rec
      → Settles (λ s. Small (length input) s.entries) (scan c rec d input depth)
  unfolding scan
  scan-Settles d input depth below = Settles-bind _ _ (Settles-reject_if _ _) λ _ _ _.
      Settles-bind _ _
        (scan_from-Settles (length input) (length input) d depth input [] 0 below (omega arith)
          (omega arith) tt)
        λ es _ small. Settles-ok _ small

  -- A scan of something shorter than what `rec` settles below.
  pub scan_below-Settles :
      (n : ℕ) (d : MessageDescriptor) (input : Bytes) (depth : ℕ)
      → SettlesBelow n rec
      → length input ≤ n
      → Settles (λ s. Small n s.entries) (scan c rec d input depth)
  scan_below-Settles n d input depth below h =
      let s = scan-Settles d input depth (λ e b k lt. below e b k (omega arith)) in
      record {
        returns = s.returns;
        holds = λ a e. Small-le (length input) n a.entries h (s.holds a e);
      }
