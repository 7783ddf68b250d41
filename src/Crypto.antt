-- ===== src/Crypto.antt =====
-- Digests and keys: crates/mabel-core/src/digest.rs over what BLAKE3 and ed25519 provide. An id, a
-- digest and a public key are 32 bytes in the source, and here the number that those bytes spell.
use Prim.Native.Char.{code}
use mabel.Base.{ℕ, ◌++◌, Bool, Option, none, some, [], ◌∷◌, String, if◌then◌else◌, ◌==◌}
use mabel.Base.Bytes.{Bytes, length, be_value}

-- The crates that mabel-core calls: `blake3`, `PublicKey` and `Signature` of `iroh_base`, and
-- `data_encoding`.
pub record Crypto : Type 0 where
  -- The digest of a byte string, as the number of its 32 bytes.
  pub blake3 : Bytes → ℕ
  -- `PublicKey::from_bytes` accepts these 32 bytes: they are a curve point.
  pub is_point : ℕ → Bool
  -- `key.verify(input, signature)` succeeds.
  pub verify : ℕ → Bytes → Bytes → Bool
  -- `BASE32_NOPAD.decode` of the crate `data_encoding`.
  pub base32_nopad : Bytes → Option Bytes

abbrev pub id_bytes : ℕ
id_bytes = 32

abbrev pub sig_bytes : ℕ
sig_bytes = 64

abbrev pub nonce_bytes : ℕ
nonce_bytes = 16

-- The bytes of an ASCII text.
abbrev pub ascii : String → Bytes
ascii String.[] = []
ascii (String.◌∷◌ c s) = code c ∷ ascii s

-- The four domains end in a newline, byte 10.
unfoldable pub event_id_domain : Bytes
event_id_domain = ascii "mabel/event/v0" ++ 10 ∷ []

unfoldable pub sign_domain : Bytes
sign_domain = ascii "mabel/sig/v0" ++ 10 ∷ []

unfoldable pub accept_domain : Bytes
accept_domain = ascii "mabel/accept/v0" ++ 10 ∷ []

pub reserve_domain : Bytes
reserve_domain = ascii "mabel/reserve/v0" ++ 10 ∷ []

-- `from_slice` of the id types: 32 bytes, or nothing.
unfoldable pub from_slice : Bytes → Option ℕ
from_slice bytes = if length bytes == id_bytes then some (be_value 0 bytes) else none

module _ (c : Crypto) where
  unfoldable pub hash : Bytes → Bytes → ℕ
  hash domain bytes = c.blake3 (domain ++ bytes)

  unfoldable pub event_id : Bytes → ℕ
  unfolding hash event_id_domain
  event_id body_bytes = hash event_id_domain body_bytes

  unfoldable pub sign_input : Bytes → Bytes
  unfolding sign_domain
  sign_input body_bytes = sign_domain ++ body_bytes

  unfoldable pub accept_input : Bytes → Bytes
  unfolding accept_domain
  accept_input acceptance_bytes = accept_domain ++ acceptance_bytes
