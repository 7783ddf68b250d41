-- ===== src/Node/Verification.antt =====
-- The cache of hostname checks: crates/mabel-node/src/verification/cache.rs, with the status and the
-- outcome of verification/verify.rs. A text is its bytes, and a file that does not parse is absent.
-- The field `failed` of an entry is `unreachable` in the source.
pub mod Earned
use mabel.Base.{
  ℕ, ◌+◌, ◌-◌, ◌*◌, Bool, true, false, ◌&&◌, Option, none, some, List, [], ◌∷◌, map, ◌==◌, leb, ltb,
  if◌then◌else◌,
}
use mabel.Base.Bytes.{Bytes}
use mabel.Validate.Cardinality.{bytes_eq}

pub data VerificationStatus : Type 0 where
  verified unverified mismatched unreachable unclaimed unchecked : VerificationStatus

pub record VerificationOutcome : Type 0 where
  pub hostname : Bytes
  pub status : VerificationStatus
  pub detail : Bytes

pub record UnreachableCheck : Type 0 where
  pub checked_at_ms : ℕ
  pub detail : Bytes

pub record VerificationEntry : Type 0 where
  pub hostname : Bytes
  pub status : VerificationStatus
  pub checked_at_ms : ℕ
  pub last_verified_at_ms : Option ℕ
  pub detail : Bytes
  pub failed : Option UnreachableCheck

abbrev pub fresh_for_ms : ℕ
fresh_for_ms = 24 * 60 * 60 * 1000

unfoldable pub is_decisive : VerificationStatus → Bool
is_decisive VerificationStatus.verified = true
is_decisive VerificationStatus.mismatched = true
is_decisive _ = false

unfoldable pub is_verified : VerificationStatus → Bool
is_verified VerificationStatus.verified = true
is_verified _ = false

unfoldable pub is_unreachable : VerificationStatus → Bool
is_unreachable VerificationStatus.unreachable = true
is_unreachable _ = false

-- A byte of `A` to `Z`, 65 to 90, in lower case.
abbrev pub to_ascii_lowercase : ℕ → ℕ
to_ascii_lowercase b = if leb 65 b && leb b 90 then b + 32 else b

abbrev pub lowered : Bytes → Bytes
lowered text = map to_ascii_lowercase text

unfoldable pub eq_ignore_ascii_case : Bytes → Bytes → Bool
unfolding bytes_eq
eq_ignore_ascii_case a b = bytes_eq (lowered a) (lowered b)

unfoldable pub covers : Bytes → VerificationEntry → Bool
unfolding eq_ignore_ascii_case
covers hostname entry = eq_ignore_ascii_case entry.hostname hostname

unfoldable pub age_ms : (now : ℕ) → VerificationEntry → ℕ
age_ms now entry = now - entry.checked_at_ms

unfoldable pub is_stale : (now : ℕ) → VerificationEntry → Bool
unfolding age_ms
is_stale now entry = ltb fresh_for_ms (age_ms now entry)

unfoldable pub should_refresh : Option VerificationEntry → (now : ℕ) → Bool
unfolding is_stale
should_refresh none now = false
should_refresh (some entry) now = is_stale now entry

-- `VerificationEntry::first`.
unfoldable pub first : VerificationOutcome → (now : ℕ) → VerificationEntry
unfolding is_verified
first outcome now = record {
  hostname = outcome.hostname;
  status = outcome.status;
  checked_at_ms = now;
  last_verified_at_ms = if is_verified outcome.status then some now else none;
  detail = outcome.detail;
  failed = none;
}

-- `merge` where the previous entry is about the same hostname.
unfoldable pub merge_into : VerificationEntry → VerificationOutcome → (now : ℕ) → VerificationEntry
unfolding is_unreachable is_decisive is_verified
merge_into previous outcome now =
    if is_unreachable outcome.status && is_decisive previous.status
    then record previous { failed = some (record { checked_at_ms = now; detail = outcome.detail }) }
    else record {
      hostname = outcome.hostname;
      status = outcome.status;
      checked_at_ms = now;
      last_verified_at_ms =
          if is_verified outcome.status then some now else previous.last_verified_at_ms;
      detail = outcome.detail;
      failed = none;
    }

unfoldable pub merge :
    Option VerificationEntry → VerificationOutcome → (now : ℕ) → VerificationEntry
unfolding covers first merge_into
merge none outcome now = first outcome now
merge (some previous) outcome now =
    if covers outcome.hostname previous then merge_into previous outcome now else first outcome now
