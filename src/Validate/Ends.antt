-- ===== src/Validate/Ends.antt =====
-- The fuel of crates/mabel-core/src/validate.rs, from the cross-field rules to `message`.
use mabel.Base.{ℕ, zero, suc, ◌+◌, ◌<◌, ◌≢◌, Option, none, some, String, arith, ◌==◌}
use mabel.Base.Bytes.{Bytes, length}
use mabel.Crypto.{Crypto}
use mabel.Validate.Error.{Result, spent}
use mabel.Validate.Descriptor.{CrossFieldCheck, MessageDescriptor, check_of}
use mabel.Validate.Schema
use mabel.Validate.Schema.{
  inception_tag, trust_attestation_tag, membership_invitation_tag, raw_root_tag,
}
use mabel.Validate.Values.{Scanned}
use mabel.Validate.Scan.{bytes_of, oneof, scan}
use mabel.Validate.Message.{
  check_raw_root, detached_acceptance, subfields, inception_standalone, check_embedded_inception,
  check_own_root, check_not_ledger, check_event_body, cross_check, validate_with, validate,
  message_fields, message, verify_inception_standalone,
}
use mabel.Validate.Settles.{Settles, Settles-ok, Settles-bind, Settles-reject_if, Settles-expect}
use mabel.Validate.Termination.{Small, SettlesBelow, any_unit}
use mabel.Validate.Checks.{
  check_cardinality-Settles, public_key-Settles, verify-Settles, check_links-Settles, expected,
  if_Settles,
}
use mabel.Validate.Sizes.{bytes_of-lt, oneof-lt, scan-Settles, scan_below-Settles}

-- `n` bounds what `rec` validates.
module _ (c : Crypto) (rec : MessageDescriptor → Bytes → ℕ → Result Scanned) (n : ℕ)
    (below : SettlesBelow n rec) where
  within :
      (d : MessageDescriptor) (input : Bytes) (depth : ℕ)
      → length input < n
      → Settles (λ s. Small n s.entries) (scan c rec d input depth)
  within d input depth h = scan_below-Settles c rec n d input depth below (omega arith)

  detached_acceptance-Settles :
      (blob signature : Bytes) (message : String)
      → length blob < n
      → Settles (λ _. Unit {0}) (detached_acceptance c rec blob signature message)
  unfolding detached_acceptance
  detached_acceptance-Settles blob signature message h =
      Settles-bind _ _ (within Schema.acceptance blob 0 h) λ _ _ _.
        Settles-bind _ _ (Settles-expect _) λ bytes _ _.
          Settles-bind _ _ (public_key-Settles c _ _ bytes)
            λ key _ _. verify-Settles c key _ signature _ _

  pub inception_standalone-Settles :
      (input : Bytes) (depth : ℕ)
      → length input < n
      → Settles (λ _. Unit {0}) (inception_standalone c rec input depth)
  unfolding inception_standalone
  inception_standalone-Settles input depth h =
      Settles-bind _ _ (below Schema.signed_event input depth h) λ signed _ small.
        Settles-bind _ _ (Settles-expect (bytes_of signed 1)) λ body is_body _.
          Settles-bind _ _ (Settles-expect (bytes_of signed 2)) λ signature _ _.
            Settles-bind _ _
              (within Schema.event_body body (depth + 1) (
                omega
                  (arith, bytes_of-lt (length input) 1 signed body small (expected _ _ is_body))))
              λ fields _ small'.
                Settles-bind _ _ (Settles-expect (oneof fields)) λ (number, payload) is_payload _.
                  Settles-bind _ _ (Settles-reject_if _ _) λ _ _ _.
                    Settles-bind _ _
                      (within Schema.inception payload (depth + 2)
                        (oneof-lt n fields number payload small' (expected _ _ is_payload)))
                      λ inception _ small''.
                        Settles-bind _ _ (Settles-expect (oneof inception))
                          λ (root_number, root) is_root _.
                            Settles-bind _ _ (Settles-reject_if _ _) λ _ _ _.
                              Settles-bind _ _
                                (within Schema.raw_root root (depth + 3) (
                                  oneof-lt n inception root_number root small''
                                    (expected _ _ is_root)))
                                λ raw_root _ _.
                                  Settles-bind _ _ (Settles-expect (bytes_of raw_root 1))
                                    λ key_bytes _ _.
                                      Settles-bind _ _ (public_key-Settles c _ _ key_bytes)
                                        λ key _ _.
                                          Settles-bind _ _ (verify-Settles c key _ signature _ _)
                                            λ _ _ _. Settles-ok _ tt

  check_embedded_inception-Settles :
      (s : Scanned) (inception_field id_field : ℕ) (id_name : String) (key_field : ℕ)
      (key_name : String)
      → Small n s.entries
      → Settles
          (λ _. Unit {0})
          (check_embedded_inception c rec s inception_field id_field id_name key_field key_name)
  unfolding check_embedded_inception
  check_embedded_inception-Settles s inception_field id_field id_name key_field key_name small =
      Settles-bind _ _ (Settles-expect (bytes_of s inception_field)) λ embedded is_embedded _.
        Settles-bind _ _
          (inception_standalone-Settles embedded (s.depth + 1)
            (bytes_of-lt n inception_field s embedded small (expected _ _ is_embedded)))
          λ _ _ _.
            Settles-bind _ _ (Settles-reject_if _ _) λ _ _ _. any_unit (Settles-reject_if _ _)

  check_own_root-Settles :
      (s : Scanned) (payload author_key : Bytes)
      → length payload < n
      → Settles (λ _. Unit {0}) (check_own_root c rec s payload author_key)
  unfolding check_own_root subfields
  check_own_root-Settles s payload author_key h =
      Settles-bind _ _ (within Schema.inception payload (s.depth + 1) h) λ inception _ small.
        Settles-bind _ _ (Settles-expect (oneof inception)) λ (number, root) is_root _.
          let shorter = oneof-lt n inception number root small (expected _ _ is_root) in
          if_Settles (number == raw_root_tag)
            (Settles-bind _ _ (within Schema.raw_root root (inception.depth + 1) shorter)
              λ _ _ _. any_unit (Settles-reject_if _ _))
            (Settles-bind _ _ (within Schema.identity_root root (inception.depth + 1) shorter)
              λ _ _ _. any_unit (Settles-reject_if _ _))

  check_not_ledger-Settles :
      (s : Scanned) (d : MessageDescriptor) (payload : Bytes) (ledger : Option Bytes)
      (name : String)
      → length payload < n
      → Settles (λ _. Unit {0}) (check_not_ledger c rec s d payload ledger name)
  unfolding check_not_ledger subfields
  check_not_ledger-Settles s d payload ledger name h =
      Settles-bind _ _ (within d payload (s.depth + 1) h) λ _ _ _. any_unit (Settles-reject_if _ _)

  check_event_body-Settles :
      (s : Scanned) → Small n s.entries → Settles (λ _. Unit {0}) (check_event_body c rec s)
  unfolding check_event_body
  check_event_body-Settles s small = Settles-bind _ _ (check_links-Settles _ _ _) λ _ _ _.
      Settles-bind _ _ (Settles-expect (oneof s)) λ (number, payload) is_payload _.
        let shorter = oneof-lt n s number payload small (expected _ _ is_payload) in
        Settles-bind _ _ (Settles-reject_if _ _) λ _ _ _.
          Settles-bind _ _ (Settles-reject_if _ _) λ _ _ _.
            Settles-bind _ _ (Settles-expect _) λ author_key _ _.
              if_Settles (number == inception_tag)
                (check_own_root-Settles s payload author_key shorter)
                (if_Settles (number == trust_attestation_tag)
                  (check_not_ledger-Settles s _ payload _ _ shorter)
                  (if_Settles (number == membership_invitation_tag)
                    (check_not_ledger-Settles s _ payload _ _ shorter) (Settles-ok tt tt)))

  cross_check-Settles :
      (k : Option CrossFieldCheck) (s : Scanned)
      → Small n s.entries
      → Settles (λ _. Unit {0}) (cross_check c rec k s)
  unfolding cross_check check_raw_root
  cross_check-Settles none s small = Settles-ok tt tt
  cross_check-Settles (some CrossFieldCheck.check_raw_root) s small =
      any_unit (Settles-reject_if _ _)
  cross_check-Settles (some CrossFieldCheck.check_identity_root) s small =
      check_embedded_inception-Settles s _ _ _ _ _ small
  cross_check-Settles (some CrossFieldCheck.check_membership_invitation) s small =
      check_embedded_inception-Settles s _ _ _ _ _ small
  cross_check-Settles (some CrossFieldCheck.check_membership_acceptance) s small =
      Settles-bind _ _ (Settles-expect (bytes_of s 1)) λ blob is_blob _.
        Settles-bind _ _ (Settles-expect (bytes_of s 2)) λ signature _ _.
          detached_acceptance-Settles blob signature _
            (bytes_of-lt n 1 s blob small (expected _ _ is_blob))
  cross_check-Settles (some CrossFieldCheck.check_event_body) s small =
      check_event_body-Settles s small

validate_with-Settles :
    (c : Crypto) (rec : MessageDescriptor → Bytes → ℕ → Result Scanned) (d : MessageDescriptor)
    (input : Bytes) (depth : ℕ)
    → SettlesBelow (length input) rec
    → Settles (λ s. Small (length input) s.entries) (validate_with c rec d input depth)
unfolding validate_with
validate_with-Settles c rec d input depth below = Settles-bind _ _ (Settles-reject_if _ _) λ _ _ _.
    Settles-bind _ _ (scan-Settles c rec d input depth below) λ s _ small.
      Settles-bind _ _ (check_cardinality-Settles s) λ _ _ _.
        Settles-bind _ _ (cross_check-Settles c rec (length input) below (check_of d) s small)
          λ _ _ _. Settles-ok s small

-- Fuel above the length of the input is enough, at every descriptor and depth.
validate-Settles :
    (c : Crypto) (fuel : ℕ) (d : MessageDescriptor) (input : Bytes) (depth : ℕ)
    → length input < fuel
    → Settles (λ s. Small (length input) s.entries) (validate c fuel d input depth)
unfolding validate
validate-Settles c zero d input depth h = absurd (omega arith)
validate-Settles c (suc fuel) d input depth h =
    validate_with-Settles c (validate c fuel) d input depth
      λ e part k lt. validate-Settles c fuel e part k (omega arith)

-- For any primitives, descriptor and input, `message` and `verify_inception_standalone` accept,
-- refuse with an error or panic: neither spends its fuel.
pub message_ends :
    (c : Crypto) (d : MessageDescriptor) (input : Bytes)
    → (message c d input ≢ spent) × (verify_inception_standalone c input ≢ spent)
unfolding message message_fields verify_inception_standalone
message_ends c d input = (
  (Settles-bind _ _ (validate-Settles c (suc (length input)) d input 0 (omega arith))
      λ _ _ _. Settles-ok {P = λ _. Unit {0}} tt tt).returns,
  (inception_standalone-Settles c (validate c (suc (length input))) (suc (length input))
      (λ e part k lt. validate-Settles c (suc (length input)) e part k lt) input 0
      (omega arith)).returns,
)
