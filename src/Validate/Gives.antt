-- ===== src/Validate/Gives.antt =====
-- What holds of the value that a step of crates/mabel-core/src/validate.rs returns, and the rules by
-- which it is followed.
use mabel.Base.{Bool, true, false, ◌≡◌, Option, none, some, refl, ap}
use mathlib.Core.Path.{subst}
use mabel.Validate.Error.{WireError, Result, ok, err, panic, spent, ◌>>=◌, reject_if, ok_or}

pub record Gives {ℓ} {A : Type 0} (P : A → Type ℓ) (o : Result A) : Type ℓ where
  pub holds : (a : A) → o ≡ ok a → P a

pub Gives-bind :
    {A B : Type 0} {Q : B → Type 0} (m : Result A) (f : A → Result B)
    → ((a : A) → m ≡ ok a → Gives Q (f a))
    → Gives Q (m >>= f)
unfolding ◌>>=◌
Gives-bind (ok a) f h = h a refl
Gives-bind (err e) f h = record { holds = λ b k. cc }
Gives-bind panic f h = record { holds = λ b k. cc }
Gives-bind spent f h = record { holds = λ b k. cc }

abbrev or_else : {A : Type 0} → A → Result A → A
or_else a (ok b) = b
or_else a _ = a

pub Gives-ok : {A : Type 0} {P : A → Type 0} (a : A) → P a → Gives P (ok a)
Gives-ok {P} a p = record { holds = λ b e. subst P (ap (or_else a) e) p }

pub accepted : (b : Bool) (e : WireError) → reject_if b e ≡ ok tt → b ≡ false
accepted true e h = cc
accepted false e h = refl

pub found : {A : Type 0} (o : Option A) (e : WireError) (a : A) → ok_or o e ≡ ok a → o ≡ some a
found none e a h = cc
found (some b) e a h = cc
