-- ===== src/Validate/Text.antt =====
-- The string rules of crates/mabel-core/src/validate.rs, over the bytes of a text and the code points
-- that they encode. A rule returns the reason why a text breaks it, or `none`.
use mabel.Base.{
  ℕ, ◌+◌, ◌-◌, ◌*◌, Bool, true, false, not, ◌&&◌, ◌||◌, Option, none, some, List, [], ◌∷◌, String,
  map, ◌==◌, ltb, leb, is_some, if◌then◌else◌,
}
use mabel.Base.Bytes.{Bytes, length}
use mabel.Crypto.{Crypto, from_slice}

abbrev pub within : ℕ → ℕ → ℕ → Bool
within lo hi c = leb lo c && leb c hi

abbrev is_tail : ℕ → Bool
is_tail b = within 0x80 0xbf b

-- `Option::map` of the code point in front.
abbrev pub push : ℕ → Option (List ℕ) → Option (List ℕ)
push c none = none
push c (some cs) = some (c ∷ cs)

-- The first byte of three fixes the range of the second.
abbrev three_bytes : ℕ → ℕ → ℕ → Bool
three_bytes a b c =
    (a == 0xe0 && within 0xa0 0xbf b
      || (within 0xe1 0xec a && is_tail b
          || (a == 0xed && within 0x80 0x9f b || within 0xee 0xef a && is_tail b)))
    && is_tail c

abbrev four_bytes : ℕ → ℕ → ℕ → ℕ → Bool
four_bytes a b c d =
    (a == 0xf0 && within 0x90 0xbf b
      || (within 0xf1 0xf3 a && is_tail b || a == 0xf4 && within 0x80 0x8f b))
    && (is_tail c && is_tail d)

-- `str::from_utf8`: the code points of well-formed UTF-8, in the shortest form and with no
-- surrogates.
unfoldable pub from_utf8 : Bytes → Option (List ℕ)
from_utf8 [] = some []
from_utf8 (a ∷ []) = if ltb a 0x80 then some (a ∷ []) else none
from_utf8 (a ∷ b ∷ []) =
    let one = push a (from_utf8 (b ∷ [])) in
    if ltb a 0x80
    then one
    else if within 0xc2 0xdf a && is_tail b
    then some (((a - 0xc0) * 64 + (b - 0x80)) ∷ [])
    else none
from_utf8 (a ∷ b ∷ c ∷ []) =
    let one = push a (from_utf8 (b ∷ c ∷ [])) in
    let two = push ((a - 0xc0) * 64 + (b - 0x80)) (from_utf8 (c ∷ [])) in
    if ltb a 0x80
    then one
    else if within 0xc2 0xdf a && is_tail b
    then two
    else if three_bytes a b c
    then some (((a - 0xe0) * 4096 + (b - 0x80) * 64 + (c - 0x80)) ∷ [])
    else none
from_utf8 (a ∷ b ∷ c ∷ d ∷ rest) =
    let one = push a (from_utf8 (b ∷ c ∷ d ∷ rest)) in
    let two = push ((a - 0xc0) * 64 + (b - 0x80)) (from_utf8 (c ∷ d ∷ rest)) in
    let three = push ((a - 0xe0) * 4096 + (b - 0x80) * 64 + (c - 0x80)) (from_utf8 (d ∷ rest)) in
    let four =
      push ((a - 0xf0) * 262144 + (b - 0x80) * 4096 + (c - 0x80) * 64 + (d - 0x80))
        (from_utf8 rest) in
    if ltb a 0x80
    then one
    else if within 0xc2 0xdf a && is_tail b
    then two
    else if three_bytes a b c
    then three
    else if four_bytes a b c d
    then four
    else none

-- The codepoint policy of every published string.
unfoldable pub check_codepoints : List ℕ → Option String
check_codepoints [] = none
check_codepoints (c ∷ cs) =
    let rest = check_codepoints cs in
    if within 0x0 0x1f c || c == 0x7f
    then some "it holds a C0 control character"
    else if within 0x80 0x9f c
    then some "it holds a C1 control character"
    else if within 0x202a 0x202e c || within 0x2066 0x2069 c
    then some "it holds a bidi control character"
    else if within 0x200b 0x200f c || (within 0x2060 0x2064 c || c == 0xfeff)
    then some "it holds a zero-width or invisible format character"
    else rest

-- `char::is_whitespace`, the Unicode property White_Space.
unfoldable pub is_whitespace : ℕ → Bool
is_whitespace c =
    within 0x9 0xd c
    || (c == 0x20
        || (c == 0x85
            || (c == 0xa0
                || (c == 0x1680
                    || (within 0x2000 0x200a c
                        || (within 0x2028 0x2029 c
                            || (c == 0x202f || (c == 0x205f || c == 0x3000))))))))

-- Whether the last element passes the test; an empty list has none.
abbrev pub last_is : (ℕ → Bool) → List ℕ → Bool
last_is test [] = false
last_is test (x ∷ []) = test x
last_is test (x ∷ y ∷ ys) = last_is test (y ∷ ys)

abbrev pub first_is : (ℕ → Bool) → List ℕ → Bool
first_is test [] = false
first_is test (x ∷ _) = test x

-- The first reason, if there is one, and else the second.
abbrev pub first_reason : Option String → Option String → Option String
first_reason (some r) other = some r
first_reason none other = other

abbrev id_of : Option Bytes → Option ℕ
id_of none = none
id_of (some bytes) = from_slice bytes

abbrev to_ascii_uppercase : ℕ → ℕ
to_ascii_uppercase b = if within b'a' b'z' b then b - 32 else b

module _ (c : Crypto) where
  -- `text.parse::<IdentityId>()` of id.rs.
  unfoldable pub parse_id : Bytes → Option ℕ
  parse_id text =
      if length text == 52 then id_of (c.base32_nopad (map to_ascii_uppercase text)) else none

  -- `check_display_name`, on the bytes of the text and its code points. `text.trim() != text` says
  -- that the first or the last code point is white space.
  unfoldable pub check_display_name : Bytes → List ℕ → Option String
  unfolding check_codepoints is_whitespace parse_id
  check_display_name text chars = first_reason (check_codepoints chars) (
      if first_is is_whitespace chars || last_is is_whitespace chars
      then some "it has leading or trailing whitespace"
      else if is_some (parse_id text)
      then some "it parses as an identity id"
      else none)

abbrev in_first : ℕ → List Bytes → List Bytes
in_first b [] = (b ∷ []) ∷ []
in_first b (p ∷ ps) = (b ∷ p) ∷ ps

abbrev pub is_nil : Bytes → Bool
is_nil [] = true
is_nil (_ ∷ _) = false

-- `text.split(at)`.
unfoldable pub split : ℕ → Bytes → List Bytes
split at [] = [] ∷ []
split at (b ∷ bs) = let rest = split at bs in if b == at then [] ∷ rest else in_first b rest

abbrev pub is_lower_alphanumeric : ℕ → Bool
is_lower_alphanumeric b = within b'a' b'z' b || within b'0' b'9' b

-- `byte.is_ascii_alphanumeric()`.
abbrev pub is_alphanumeric : ℕ → Bool
is_alphanumeric b = is_lower_alphanumeric b || within b'A' b'Z' b

abbrev pub all : (ℕ → Bool) → Bytes → Bool
all test [] = true
all test (b ∷ bs) = test b && all test bs

abbrev pub any : (ℕ → Bool) → Bytes → Bool
any test [] = false
any test (b ∷ bs) = test b || any test bs

unfoldable pub check_label : Bytes → Option String
check_label [] = some "it holds an empty label"
check_label (b ∷ bs) =
    let label = b ∷ bs in
    if ltb 63 (length label)
    then some "it holds a label over 63 bytes"
    else if not (first_is is_alphanumeric label) || not (last_is is_alphanumeric label)
    then some "a label does not start and end with a letter or digit"
    else if not (all (λ x. is_alphanumeric x || x == b'-') label)
    then some "a label holds a character outside [a-z0-9-]"
    else none

unfoldable pub check_labels : List Bytes → Option String
unfolding check_label
check_labels [] = none
check_labels (l ∷ ls) = first_reason (check_label l) (check_labels ls)

unfoldable pub check_hostname : Bytes → Option String
unfolding check_labels split
check_hostname text =
    if any (λ b. leb 0x80 b) text
    then some "it holds a character outside ASCII"
    else if any (within b'A' b'Z') text
    then some "it holds an uppercase letter"
    else if last_is (λ b. b == b'.') text
    then some "it ends with a dot"
    else if not (any (λ b. b == b'.') text)
    then some "it holds no dot"
    else check_labels (split b'.' text)

-- What `check_email` says of the parts between the at signs.
check_parts : List Bytes → Option String
check_parts [] = some "it holds no at sign"
check_parts (local ∷ []) = some "it holds no at sign"
check_parts (local ∷ domain ∷ []) =
    if is_nil local
    then some "it holds nothing before the at sign"
    else if is_nil domain
    then some "it holds nothing after the at sign"
    else none
check_parts (local ∷ domain ∷ more ∷ rest) = some "it holds more than one at sign"

unfoldable pub check_email : Bytes → List ℕ → Option String
unfolding check_codepoints check_parts split
check_email text chars = first_reason (check_codepoints chars) (check_parts (split b'@' text))
