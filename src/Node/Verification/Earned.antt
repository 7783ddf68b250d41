-- ===== src/Node/Verification/Earned.antt =====
-- What the cached entry of crates/mabel-node/src/verification/cache.rs stands on, after any checks.
use mabel.Base.{
  ℕ, true, ◌&&◌, Option, none, some, List, [], ◌∷◌, ◌≡◌, ◌⊎◌, inl, inr, refl, sym, ◌∙◌, Bool-cases,
  if◌then◌else◌, if_both,
}
use mathlib.Core.Path.{subst}
use mabel.Base.Bytes.{Bytes}
use mabel.Validate.Cardinality.{bytes_eq}
use mabel.Node.Ledger.Writes.{bytes_eq-true}
use mabel.Node.Verification.{
  VerificationStatus, VerificationOutcome, VerificationEntry, is_verified, is_unreachable,
  is_decisive, lowered, eq_ignore_ascii_case, covers, first, merge_into, merge,
}

-- A check, and when it ran.
pub record Check : Type 0 where
  pub outcome : VerificationOutcome
  pub ran_ms : ℕ

-- One of the checks was of this hostname, in whatever case, gave this status and ran at this time.
abbrev pub SomeCheck : Bytes → VerificationStatus → ℕ → List Check → Type 0
SomeCheck name status at [] = ⊥
SomeCheck name status at (check ∷ checks) =
    ((lowered check.outcome.hostname ≡ lowered name)
      × (check.outcome.status ≡ status)
      × (check.ran_ms ≡ at))
    ⊎ SomeCheck name status at checks

abbrev pub LastVerified : Bytes → Option ℕ → List Check → Type 0
LastVerified name none checks = Unit
LastVerified name (some at) checks = SomeCheck name VerificationStatus.verified at checks

-- The verdict of the entry and its last verified time are those of checks of its own hostname.
abbrev pub IsEarned : List Check → VerificationEntry → Type 0
IsEarned checks entry =
    SomeCheck entry.hostname entry.status entry.checked_at_ms checks
    × LastVerified entry.hostname entry.last_verified_at_ms checks

LastVerified-later :
    (name : Bytes) (at : Option ℕ) (check : Check) (checks : List Check)
    → LastVerified name at checks
    → LastVerified name at (check ∷ checks)
LastVerified-later name none check checks h = tt
LastVerified-later name (some at) check checks h = inr h

SomeCheck-same :
    (name name' : Bytes) (status : VerificationStatus) (at : ℕ) (checks : List Check)
    → lowered name ≡ lowered name'
    → SomeCheck name status at checks
    → SomeCheck name' status at checks
SomeCheck-same name name' status at [] same h = h
SomeCheck-same name name' status at (check ∷ checks) same (inl h) = inl (h.0 ∙ same, h.1, h.2)
SomeCheck-same name name' status at (check ∷ checks) same (inr h) =
    inr (SomeCheck-same name name' status at checks same h)

LastVerified-same :
    (name name' : Bytes) (at : Option ℕ) (checks : List Check)
    → lowered name ≡ lowered name'
    → LastVerified name at checks
    → LastVerified name' at checks
LastVerified-same name name' none checks same h = tt
LastVerified-same name name' (some at) checks same h =
    SomeCheck-same name name' VerificationStatus.verified at checks same h

is_verified-true : (s : VerificationStatus) → is_verified s ≡ true → s ≡ VerificationStatus.verified
unfolding is_verified
is_verified-true VerificationStatus.verified h = refl
is_verified-true VerificationStatus.unverified h = absurd cc
is_verified-true VerificationStatus.mismatched h = absurd cc
is_verified-true VerificationStatus.unreachable h = absurd cc
is_verified-true VerificationStatus.unclaimed h = absurd cc
is_verified-true VerificationStatus.unchecked h = absurd cc

-- The time that a new verdict leaves: its own where it verified, else the one kept.
kept-LastVerified :
    (check : Check) (checks : List Check) (kept : Option ℕ)
    → LastVerified check.outcome.hostname kept (check ∷ checks)
    → LastVerified check.outcome.hostname
        (if is_verified check.outcome.status then some check.ran_ms else kept)
        (check ∷ checks)
kept-LastVerified check checks kept h = elim (Bool-cases (is_verified check.outcome.status)) [
  | inl did ↦
      let now : LastVerified check.outcome.hostname (some check.ran_ms) (check ∷ checks) =
        inl (refl, is_verified-true check.outcome.status did, refl) in
      subst
        (λ t.
          LastVerified check.outcome.hostname (if t then some check.ran_ms else kept)
            (check ∷ checks))
        (sym did) now
  | inr did_not ↦
      subst
        (λ t.
          LastVerified check.outcome.hostname (if t then some check.ran_ms else kept)
            (check ∷ checks))
        (sym did_not) h
]

first-IsEarned :
    (check : Check) (checks : List Check)
    → IsEarned (check ∷ checks) (first check.outcome check.ran_ms)
unfolding first
first-IsEarned check checks = (inl (refl, refl, refl), kept-LastVerified check checks none tt)

merge_into-IsEarned :
    (check : Check) (checks : List Check) (previous : VerificationEntry)
    → lowered previous.hostname ≡ lowered check.outcome.hostname
    → IsEarned checks previous
    → IsEarned (check ∷ checks) (merge_into previous check.outcome check.ran_ms)
unfolding merge_into
merge_into-IsEarned check checks previous same h =
    let kept = LastVerified-later previous.hostname previous.last_verified_at_ms check checks h.1 in
    if_both (IsEarned (check ∷ checks))
      (is_unreachable check.outcome.status && is_decisive previous.status) (inr h.0, kept)
      (
        inl (refl, refl, refl),
        kept-LastVerified check checks previous.last_verified_at_ms (
            LastVerified-same previous.hostname check.outcome.hostname previous.last_verified_at_ms
              (check ∷ checks) same kept),
      )

-- The entry after a list of checks, the newest first, from none.
unfoldable pub entry_after : List Check → Option VerificationEntry
unfolding merge
entry_after [] = none
entry_after (check ∷ earlier) = some (merge (entry_after earlier) check.outcome check.ran_ms)

abbrev pub IsEarnedIf : List Check → Option VerificationEntry → Type 0
IsEarnedIf checks none = Unit
IsEarnedIf checks (some entry) = IsEarned checks entry

merge-IsEarned :
    (check : Check) (checks : List Check) (previous : Option VerificationEntry)
    → IsEarnedIf checks previous
    → IsEarned (check ∷ checks) (merge previous check.outcome check.ran_ms)
unfolding merge covers eq_ignore_ascii_case
merge-IsEarned check checks none h = first-IsEarned check checks
merge-IsEarned check checks (some previous) h =
    elim (Bool-cases (bytes_eq (lowered previous.hostname) (lowered check.outcome.hostname))) [
      | inl same ↦
          let name =
            bytes_eq-true (lowered previous.hostname) (lowered check.outcome.hostname) same in
          subst
            (λ t. IsEarned (check ∷ checks) (
              if t
              then merge_into previous check.outcome check.ran_ms
              else first check.outcome check.ran_ms))
            (sym same) (merge_into-IsEarned check checks previous name h)
      | inr other ↦
          subst
            (λ t. IsEarned (check ∷ checks) (
              if t
              then merge_into previous check.outcome check.ran_ms
              else first check.outcome check.ran_ms))
            (sym other) (first-IsEarned check checks)
    ]

entry_after-IsEarnedIf : (checks : List Check) → IsEarnedIf checks (entry_after checks)
unfolding entry_after
entry_after-IsEarnedIf [] = tt
entry_after-IsEarnedIf (check ∷ earlier) =
    merge-IsEarned check earlier (entry_after earlier) (entry_after-IsEarnedIf earlier)

-- After any checks of an identity, whatever hostnames they were of, the entry's verdict is that of a
-- check of its own hostname that ran when the entry says, and its last verified time is when a
-- check of that hostname verified: no verdict passes to another hostname.
pub entry_after-IsEarned :
    (checks : List Check) (entry : VerificationEntry)
    → entry_after checks ≡ some entry
    → IsEarned checks entry
entry_after-IsEarned checks entry e = subst (IsEarnedIf checks) e (entry_after-IsEarnedIf checks)
