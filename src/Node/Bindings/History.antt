-- ===== src/Node/Bindings/History.antt =====
-- Where a verified binding of crates/mabel-node/src/bindings.rs comes from.
use mabel.Base.{
  ℕ, true, Option, none, some, List, [], ◌∷◌, map, ◌≡◌, ◌≢◌, ◌⊎◌, inl, inr, refl, sym, arith, ◌==◌,
  Bool-cases, if◌then◌else◌, if_both,
}
use mathlib.Core.Path.{subst}
use mabel.Node.Bindings.{BoundEndpoint, Bindings, Observation, others, vouched, entry, put, merge}

abbrev pub IsIn : ℕ → List ℕ → Type 0
IsIn e [] = ⊥
IsIn e (x ∷ xs) = (x ≡ e) ⊎ IsIn e xs

-- An observation of good provenance named the endpoint, and another endpoint served it.
abbrev pub Vouches : ℕ → Observation → Type 0
Vouches e o = (o.may_bind ≡ true) × IsIn e o.endpoints × (e ≢ o.source)

abbrev pub SomeVouches : ℕ → List Observation → Type 0
SomeVouches e [] = ⊥
SomeVouches e (o ∷ os) = Vouches e o ⊎ SomeVouches e os

abbrev pub AllVouched : List Observation → List BoundEndpoint → Type 0
AllVouched os [] = Unit
AllVouched os (bound ∷ bounds) =
    SomeVouches bound.endpoint os × (bound.endpoint ≢ bound.source) × AllVouched os bounds

-- The entries derive from one head.
abbrev pub IsUniform : (seq event : ℕ) → List BoundEndpoint → Type 0
IsUniform seq event [] = Unit
IsUniform seq event (bound ∷ bounds) =
    (bound.head_seq ≡ seq) × (bound.head_event ≡ event) × IsUniform seq event bounds

abbrev pub IsSound : List Observation → Option Bindings → Type 0
IsSound os none = Unit
IsSound os (some b) =
    AllVouched os b.endpoints × ((seq : ℕ) × (event : ℕ) × IsUniform seq event b.endpoints)

pub AllVouched-later :
    (o : Observation) (os : List Observation) (bounds : List BoundEndpoint)
    → AllVouched os bounds
    → AllVouched (o ∷ os) bounds
AllVouched-later o os [] h = tt
AllVouched-later o os (bound ∷ bounds) h = (inr h.0, h.1, AllVouched-later o os bounds h.2)

pub IsSound-later :
    (o : Observation) (os : List Observation) (file : Option Bindings)
    → IsSound os file
    → IsSound (o ∷ os) file
IsSound-later o os none h = tt
IsSound-later o os (some b) h = (AllVouched-later o os b.endpoints h.0, h.1)

-- Every endpoint of the list is vouched for by the observation.
abbrev pub AreVouched : Observation → List ℕ → Type 0
AreVouched o [] = Unit
AreVouched o (e ∷ es) = Vouches e o × AreVouched o es

others-AreVouched :
    (o : Observation) (es : List ℕ)
    → o.may_bind ≡ true
    → ((e : ℕ) → IsIn e es → IsIn e o.endpoints)
    → AreVouched o (others o.source es)
unfolding others
others-AreVouched o [] may within = tt
others-AreVouched o (e ∷ es) may within =
    let rest = others-AreVouched o es may (λ x h. within x (inr h)) in
    elim (Bool-cases (e == o.source)) [
      | inl own ↦ rw own rest
      | inr apart ↦
          let other : e ≢ o.source = λ same. ground (arith, apart, same) in
          let both : AreVouched o (e ∷ others o.source es) =
            ((may, within e (inl refl), other), rest) in
          rw apart both
    ]

pub vouched-AreVouched : (o : Observation) → o.may_bind ≡ true → AreVouched o (vouched o)
unfolding vouched
vouched-AreVouched o may =
    let all = others-AreVouched o o.endpoints may (λ e h. h) in
    subst (λ t. AreVouched o (if t then others o.source o.endpoints else [])) (sym may) all

pub entries-AllVouched :
    (o : Observation) (os : List Observation) (es : List ℕ)
    → AreVouched o es
    → AllVouched (o ∷ os) (map (entry o) es)
unfolding entry
entries-AllVouched o os [] h = tt
entries-AllVouched o os (e ∷ es) h = (inl h.0, h.0.2, entries-AllVouched o os es h.1)

pub entries-IsUniform :
    (o : Observation) (es : List ℕ) → IsUniform o.head_seq o.head_event (map (entry o) es)
unfolding entry
entries-IsUniform o [] = tt
entries-IsUniform o (e ∷ es) = (refl, refl, entries-IsUniform o es)

put-AllVouched :
    (o : Observation) (os : List Observation) (e : ℕ) (bounds : List BoundEndpoint)
    → Vouches e o
    → AllVouched (o ∷ os) bounds
    → AllVouched (o ∷ os) (put (entry o e) bounds)
unfolding put entry
put-AllVouched o os e [] v h = (inl v, v.2, tt)
put-AllVouched o os e (bound ∷ bounds) v h =
    if_both (AllVouched (o ∷ os)) (bound.endpoint == e) (inl v, v.2, h.2)
      (h.0, h.1, put-AllVouched o os e bounds v h.2)

put-IsUniform :
    (o : Observation) (e : ℕ) (bounds : List BoundEndpoint)
    → IsUniform o.head_seq o.head_event bounds
    → IsUniform o.head_seq o.head_event (put (entry o e) bounds)
unfolding put entry
put-IsUniform o e [] h = (refl, refl, tt)
put-IsUniform o e (bound ∷ bounds) h =
    if_both (IsUniform o.head_seq o.head_event) (bound.endpoint == e) (refl, refl, h.2)
      (h.0, h.1, put-IsUniform o e bounds h.2)

pub merge-AllVouched :
    (o : Observation) (os : List Observation) (es : List ℕ) (bounds : List BoundEndpoint)
    → AreVouched o es
    → AllVouched (o ∷ os) bounds
    → AllVouched (o ∷ os) (merge o es bounds)
unfolding merge
merge-AllVouched o os [] bounds v h = h
merge-AllVouched o os (e ∷ es) bounds v h =
    merge-AllVouched o os es (put (entry o e) bounds) v.1 (put-AllVouched o os e bounds v.0 h)

pub merge-IsUniform :
    (o : Observation) (es : List ℕ) (bounds : List BoundEndpoint)
    → IsUniform o.head_seq o.head_event bounds
    → IsUniform o.head_seq o.head_event (merge o es bounds)
unfolding merge
merge-IsUniform o [] bounds h = h
merge-IsUniform o (e ∷ es) bounds h =
    merge-IsUniform o es (put (entry o e) bounds) (put-IsUniform o e bounds h)
