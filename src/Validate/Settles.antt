-- ===== src/Validate/Settles.antt =====
-- Results that are not the end of the fuel, with what holds of their value: the rules by which the
-- validator of crates/mabel-core/src/validate.rs is followed step by step.
use mabel.Base.{Bool, true, false, ◌≡◌, ◌≢◌, Option, none, some, refl, ap}
use mathlib.Core.Path.{subst}
use mabel.Validate.Error.{WireError, Result, ok, err, panic, spent, ◌>>=◌, reject_if, expect, ok_or}

pub record Settles {ℓ} {A : Type 0} (P : A → Type ℓ) (o : Result A) : Type ℓ where
  pub returns : o ≢ spent
  pub holds : (a : A) → o ≡ ok a → P a

abbrev or_else : {A : Type 0} → A → Result A → A
or_else a (ok b) = b
or_else a _ = a

module _ {A : Type 0} {P : A → Type 0} where
  pub Settles-ok : (a : A) → P a → Settles P (ok a)
  Settles-ok a p = record { returns = λ e. cc; holds = λ b e. subst P (ap (or_else a) e) p }

  pub Settles-err : (e : WireError) → Settles P (err e)
  Settles-err e = record { returns = λ h. cc; holds = λ b h. cc }

  pub Settles-panic : Settles P panic
  Settles-panic = record { returns = λ h. cc; holds = λ b h. cc }

pub Settles-bind :
    {A B : Type 0} {P : A → Type 0} {Q : B → Type 0} (m : Result A) (f : A → Result B)
    → Settles P m
    → ((a : A) → m ≡ ok a → P a → Settles Q (f a))
    → Settles Q (m >>= f)
unfolding ◌>>=◌
Settles-bind (ok a) f s h = h a refl (s.holds a refl)
Settles-bind (err e) f s h = Settles-err e
Settles-bind panic f s h = Settles-panic
Settles-bind spent f s h = absurd (s.returns refl)

pub Settles-reject_if : (b : Bool) (e : WireError) → Settles (λ _. b ≡ false) (reject_if b e)
Settles-reject_if true e = Settles-err e
Settles-reject_if false e = Settles-ok tt refl

pub Settles-expect : {A : Type 0} (o : Option A) → Settles (λ a. o ≡ some a) (expect o)
Settles-expect none = Settles-panic
Settles-expect (some a) = Settles-ok a refl

pub Settles-ok_or :
    {A : Type 0} (o : Option A) (e : WireError) → Settles (λ a. o ≡ some a) (ok_or o e)
Settles-ok_or none e = Settles-err e
Settles-ok_or (some a) e = Settles-ok a refl
