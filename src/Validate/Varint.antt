-- ===== src/Validate/Varint.antt =====
-- The varints of crates/mabel-core/src/validate.rs, `read_varint`, and the encoder of seven-bit groups.
use mabel.Base.{
  ℕ, zero, suc, ◌+◌, ◌*◌, ◌/◌, ◌%◌, ◌^◌, ◌≤◌, ◌<◌, true, false, ◌&&◌, ◌≡◌, ◌⊎◌, ◌↔◌, inl, inr, [],
  ◌∷◌, ◌++◌, String, refl, sym, ap, ◌∙◌, arith, ◌==◌, ltb, if◌then◌else◌, Bool-cases,
}
use native.Mathlib.Nat.{pow-succ'}
use mabel.Base.Bytes.{Bytes}
use mabel.Validate.Error.{ok}
use mabel.Validate.Values.{read_varint_from, read_varint}

-- The groups of seven bits of a number, the lowest first, each but the last marked: at most `k` and one.
unfoldable pub put_varint : ℕ → ℕ → Bytes
put_varint zero w = w ∷ []
put_varint (suc k) w = if ltb w 128 then w ∷ [] else (w % 128 + 128) ∷ put_varint k (w / 128)

abbrev pub AreBytes : Bytes → Type 0
AreBytes [] = Unit
AreBytes (b ∷ bs) = (b < 256) × AreBytes bs

-- The numbers that `k` groups of seven bits and one of one bit can hold.
abbrev pub cap : ℕ → ℕ
cap zero = 2
cap (suc k) = 128 * cap k

pow_next : (n : ℕ) → 2 ^ (n + 7) ≡ 128 * 2 ^ n
pow_next n =
    let more : n + 7 ≡ suc (suc (suc (suc (suc (suc (suc n)))))) = omega arith in
    ap (λ m. 2 ^ m) more ∙ seven
  where
    step : (m : ℕ) → 2 ^ suc m ≡ 2 * 2 ^ m
    step m = pow-succ' 2 m

    seven : 2 ^ suc (suc (suc (suc (suc (suc (suc n)))))) ≡ 128 * 2 ^ n
    seven = omega (
      arith,
      step n,
      step (suc n),
      step (suc (suc n)),
      step (suc (suc (suc n))),
      step (suc (suc (suc (suc n)))),
      step (suc (suc (suc (suc (suc n))))),
      step (suc (suc (suc (suc (suc (suc n)))))),
    )

cap_pos : (k : ℕ) → 0 < cap k
cap_pos zero = omega arith
cap_pos (suc k) = omega (arith, cap_pos k)

put_one : (k w : ℕ) → w < 128 → put_varint k w ≡ w ∷ []
unfolding put_varint
put_one zero w h = refl
put_one (suc k) w h = ground arith

put_more :
    (k x y : ℕ) → x < 128 → 0 < y → put_varint (suc k) (x + 128 * y) ≡ (x + 128) ∷ put_varint k y
unfolding put_varint
put_more k x y small past =
    let low : (x + 128 * y) % 128 ≡ x = omega arith in
    let high : (x + 128 * y) / 128 ≡ y = omega arith in
    elim (Bool-cases (ltb (x + 128 * y) 128)) [
      | inl less ↦ absurd (ground (arith, less))
      | inr large ↦ rw (large, low, high) refl
    ]

-- The last byte of a varint, and any other.
record Last (b value shift v : ℕ) (input rest : Bytes) : Type 0 where
  small : b < 128
  minimal : (0 < shift) → 0 < b
  fits : shift ≡ 63 → b ≤ 1
  value_is : v ≡ value + b * 2 ^ shift
  rest_is : rest ≡ input

record More (m : String) (b value shift v : ℕ) (input rest : Bytes) : Type 0 where
  marked : 128 ≤ b
  room : shift + 7 ≤ 63
  goes_on : read_varint_from m input (value + b % 128 * 2 ^ shift) (shift + 7) ≡ ok (v, rest)

round :
    (m : String) (b : ℕ) (input : Bytes) (value shift v : ℕ) (rest : Bytes)
    → shift ≤ 63
    → read_varint_from m (b ∷ input) value shift ≡ ok (v, rest)
    → Last b value shift v input rest ⊎ More m b value shift v input rest
unfolding read_varint_from
round m b input value shift v rest low h = elim (Bool-cases (shift == 63 && ltb 1 (b % 128))) [
  | inl wide ↦ absurd (ground (arith, wide))
  | inr fits ↦ elim (Bool-cases (ltb b 128)) [
    | inr more ↦ inr (record {
      marked = ground arith;
      room = ground (arith, fits, more);
      goes_on = ground (arith, fits, more);
    })
    | inl last ↦ elim (Bool-cases (b % 128 == 0 && ltb 0 shift)) [
      | inl padded ↦ absurd (ground (arith, fits, last, padded))
      | inr minimal ↦ inl (record {
        small = ground arith;
        minimal = λ past. ground arith;
        fits = λ e. ground arith;
        value_is = ground (arith, fits, last, minimal);
        rest_is = ground (arith, fits, last, minimal);
      })
    ]
  ]
]

-- A varint read from the shift on, as the number `w` that its bytes put.
record Reads (k value shift v : ℕ) (input rest : Bytes) : Type 0 where
  w : ℕ
  value_is : v ≡ value + w * 2 ^ shift
  bytes_are : input ≡ put_varint k w ++ rest
  minimal : (0 < shift) → 0 < w
  below : w < cap k

read_varint_from-Reads :
    (m : String) (k : ℕ) (input : Bytes) (value shift v : ℕ) (rest : Bytes)
    → AreBytes input
    → shift + 7 * k ≡ 63
    → read_varint_from m input value shift ≡ ok (v, rest)
    → Reads k value shift v input rest
unfolding read_varint_from
read_varint_from-Reads m k [] value shift v rest bytes room h = cc
read_varint_from-Reads m zero (b ∷ input) value shift v rest bytes room h =
    elim (round m b input value shift v rest (omega arith) h) [
      | inr more ↦ absurd (omega (arith, more.room))
      | inl last ↦ record {
        w = b;
        value_is = last.value_is;
        bytes_are =
            ap (λ bs. b ∷ bs) (sym last.rest_is)
            ∙ ap (λ bs. bs ++ rest) (sym (put_one zero b last.small));
        minimal = last.minimal;
        below = omega (arith, last.fits (omega arith));
      }
    ]
read_varint_from-Reads m (suc k) (b ∷ input) value shift v rest bytes room h =
    elim (round m b input value shift v rest (omega arith) h) [
      | inl last ↦ record {
        w = b;
        value_is = last.value_is;
        bytes_are =
            ap (λ bs. b ∷ bs) (sym last.rest_is)
            ∙ ap (λ bs. bs ++ rest) (sym (put_one (suc k) b last.small));
        minimal = last.minimal;
        below = omega (arith, cap_pos k, last.small);
      }
      | inr more ↦
          let r =
            read_varint_from-Reads m k input (value + b % 128 * 2 ^ shift) (shift + 7) v rest
              bytes.1 (omega arith) more.goes_on in
          let past : 0 < r.w = r.minimal (omega arith) in
          let byte : b % 128 + 128 ≡ b = omega (arith, more.marked, bytes.0) in
          let bytes_more : b ∷ input ≡ put_varint (suc k) (b % 128 + 128 * r.w) ++ rest =
            rw (put_more k (b % 128) r.w (omega arith) past, byte)
              (ap (λ bs. b ∷ bs) r.bytes_are) in
          record {
            w = b % 128 + 128 * r.w;
            value_is =
                omega (arith, r.value_is, pow_next shift, ap (λ p. r.w * p) (pow_next shift));
            bytes_are = bytes_more;
            minimal = λ past. omega (arith, r.minimal (omega arith));
            below = omega (arith, r.below);
          }
    ]

-- The two rounds of the reader, forwards.
read_last :
    (m : String) (b : ℕ) (rest : Bytes) (value shift : ℕ)
    → b < 128
    → ((0 < shift) → 0 < b)
    → (shift ≡ 63 → b ≤ 1)
    → read_varint_from m (b ∷ rest) value shift ≡ ok (value + b * 2 ^ shift, rest)
unfolding read_varint_from
read_last m b rest value shift small minimal fits =
    let same : b % 128 ≡ b = omega arith in
    let narrow : (shift == 63 && ltb 1 b) ≡ false = ground arith in
    let last : ltb b 128 ≡ true = ground arith in
    let kept : (b == 0 && ltb 0 shift) ≡ false = ground arith in rw (same, narrow, last, kept) refl

read_more :
    (m : String) (x : ℕ) (rest : Bytes) (value shift : ℕ)
    → x < 128
    → shift + 7 ≤ 63
    → read_varint_from m ((x + 128) ∷ rest) value shift
      ≡ read_varint_from m rest (value + x * 2 ^ shift) (shift + 7)
unfolding read_varint_from
read_more m x rest value shift small room =
    let same : (x + 128) % 128 ≡ x = omega arith in
    let narrow : (shift == 63 && ltb 1 x) ≡ false = ground arith in
    let marked : ltb (x + 128) 128 ≡ false = ground arith in
    let low : ltb 63 (shift + 7) ≡ false = ground arith in rw (same, narrow, marked, low) refl

read-put_varint_from :
    (m : String) (k w : ℕ) (rest : Bytes) (value shift : ℕ)
    → shift + 7 * k ≡ 63
    → w < cap k
    → ((0 < shift) → 0 < w)
    → read_varint_from m (put_varint k w ++ rest) value shift ≡ ok (value + w * 2 ^ shift, rest)
unfolding put_varint
read-put_varint_from m zero w rest value shift room below minimal =
    read_last m w rest value shift (omega arith) minimal (λ e. omega arith)
read-put_varint_from m (suc k) w rest value shift room below minimal =
    elim (Bool-cases (ltb w 128)) [
      | inl last ↦
          rw last (read_last m w rest value shift (ground (arith, last)) minimal (λ e. omega arith))
      | inr more ↦
          let large : 128 ≤ w = ground (arith, more) in
          let again =
            read-put_varint_from m k (w / 128) rest (value + w % 128 * 2 ^ shift) (shift + 7)
              (omega arith) (omega arith) (λ past. omega arith) in
          let split : 128 * (w / 128) + w % 128 ≡ w = omega arith in
          let sum : value + w % 128 * 2 ^ shift + w / 128 * 2 ^ (shift + 7)
              ≡ value + w * 2 ^ shift =
            omega (arith, ap (λ p. w / 128 * p) (pow_next shift), ap (λ x. x * 2 ^ shift) split) in
          rw more (
            read_more m (w % 128) (put_varint k (w / 128) ++ rest) value shift (omega arith)
              (omega arith)
            ∙ again
            ∙ ap (λ x. ok (x, rest)) sum)
    ]

-- On bytes, `read_varint` returns a value and the bytes that follow exactly when the value is below 2^64
-- and the input is the one shortest encoding of the value and then those bytes.
pub read_varint_iff :
    (m : String) (input : Bytes) (v : ℕ) (rest : Bytes)
    → AreBytes input
    → (read_varint m input ≡ ok (v, rest)) ↔ ((v < 2 ^ 64) × (input ≡ put_varint 9 v ++ rest))
unfolding read_varint
read_varint_iff m input v rest bytes = (
  λ h.
      let r = read_varint_from-Reads m 9 input 0 0 v rest bytes refl h in
      let same : r.w ≡ v = omega (arith, r.value_is) in
      (omega (arith, r.below), r.bytes_are ∙ ap (λ w. put_varint 9 w ++ rest) same),
  λ (below, e). rw e (
      read-put_varint_from m 9 v rest 0 0 refl below (λ past. omega arith)
      ∙ ap (λ x. ok (x, rest)) (omega arith)),
)
