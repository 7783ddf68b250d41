-- ===== src/Validate/Checks.antt =====
-- The fuel of the checks of crates/mabel-core/src/validate.rs that call no other message.
use mabel.Base.{ℕ, Bool, true, false, ◌≡◌, Option, none, some, String, if◌then◌else◌}
use mabel.Base.Bytes.{Bytes}
use mabel.Crypto.{Crypto}
use mabel.Validate.Error.{Result, ok, expect}
use mabel.Validate.Descriptor.{FieldDescriptor, Fields, Cardinality, Oneof, cardinality_of}
use mabel.Validate.Values.{Entries, Scanned}
use mabel.Validate.Cardinality.{check_count, check_counts, check_oneof, check_cardinality}
use mabel.Validate.Message.{public_key, verify, check_links, message}
use mabel.Validate.Settles.{Settles, Settles-ok, Settles-bind, Settles-reject_if, Settles-ok_or}
use mabel.Validate.Termination.{any_unit}

check_count-Settles :
    (name : String) (f : FieldDescriptor) (k : Cardinality) (es : Entries)
    → Settles (λ _. Unit {0}) (check_count name f k es)
unfolding check_count
check_count-Settles name f Cardinality.forbidden es = any_unit (Settles-reject_if _ _)
check_count-Settles name f Cardinality.required es = any_unit (Settles-reject_if _ _)
check_count-Settles name f (Cardinality.repeated min max distinct) es =
    Settles-bind _ _ (Settles-reject_if _ _) λ _ _ _. any_unit (Settles-reject_if _ _)
check_count-Settles name f _ es = Settles-ok tt tt

check_counts-Settles :
    (name : String) (fs : Fields) (es : Entries) → Settles (λ _. Unit {0}) (check_counts name fs es)
unfolding check_counts
check_counts-Settles name Fields.end es = Settles-ok tt tt
check_counts-Settles name (Fields.and f fs) es =
    Settles-bind _ _ (check_count-Settles name f (cardinality_of f) es)
      λ _ _ _. check_counts-Settles name fs es

check_oneof-Settles :
    (name : String) (fs : Fields) (o : Option Oneof) (es : Entries)
    → Settles (λ _. Unit {0}) (check_oneof name fs o es)
unfolding check_oneof
check_oneof-Settles name fs none es = Settles-ok tt tt
check_oneof-Settles name fs (some o) es =
    Settles-bind _ _ (Settles-reject_if _ _) λ _ _ _. any_unit (Settles-reject_if _ _)

pub check_cardinality-Settles : (s : Scanned) → Settles (λ _. Unit {0}) (check_cardinality s)
unfolding check_cardinality
check_cardinality-Settles s =
    Settles-bind _ _ (check_counts-Settles _ _ s.entries)
      λ _ _ _. check_oneof-Settles _ _ _ s.entries

pub public_key-Settles :
    (c : Crypto) (message field : String) (input : Bytes)
    → Settles (λ _. Unit {0}) (public_key c message field input)
unfolding public_key
public_key-Settles c message field input =
    Settles-bind _ _ (Settles-ok_or _ _)
      λ key _ _. Settles-bind _ _ (Settles-reject_if _ _) λ _ _ _. Settles-ok key tt

pub verify-Settles :
    (c : Crypto) (key : ℕ) (input signature : Bytes) (message field : String)
    → Settles (λ _. Unit {0}) (verify c key input signature message field)
unfolding verify
verify-Settles c key input signature message field =
    Settles-bind _ _ (Settles-reject_if _ _) λ _ _ _. any_unit (Settles-reject_if _ _)

pub check_links-Settles :
    (seq : Option ℕ) (ledger prev : Option Bytes)
    → Settles (λ _. Unit {0}) (check_links seq ledger prev)
unfolding check_links
check_links-Settles none ledger prev =
    Settles-bind _ _ (Settles-reject_if _ _) λ _ _ _. any_unit (Settles-reject_if _ _)
check_links-Settles (some seq) ledger prev =
    Settles-bind _ _ (Settles-reject_if _ _) λ _ _ _. any_unit (Settles-reject_if _ _)

pub expected : {A : Type 0} (o : Option A) (a : A) → expect o ≡ ok a → o ≡ some a
expected none a h = cc
expected (some b) a h = cc

pub if_Settles :
    {A : Type 0} {P : A → Type 0} {x y : Result A} (b : Bool)
    → Settles P x
    → Settles P y
    → Settles P (if b then x else y)
if_Settles true h k = h
if_Settles false h k = k
