-- ===== src/Node/Bindings/Verified.antt =====
-- What a verified binding of crates/mabel-node/src/bindings.rs stands on, after any observations.
use mabel.Base.{
  ℕ, true, false, Option, none, some, List, [], ◌∷◌, ◌≡◌, inl, inr, refl, ap, sym, ◌∙◌, arith, ◌==◌,
  ltb, Bool-cases, Option-cases, if◌then◌else◌,
}
use mathlib.Core.Path.{subst, subst₂}
use mabel.Node.Bindings.{
  Binding, BoundEndpoint, Bindings, Observation, Recorded, names, binding, max_with, max_seq,
  recorded_seq, vouched, replaced_by, replaced_if_any, divergent, refreshed_if_any, apply_at,
  apply_to, apply, store, record_in,
}
use mabel.Node.Bindings.History.{
  SomeVouches, AllVouched, IsUniform, IsSound, AreVouched, IsSound-later, AllVouched-later,
  vouched-AreVouched, entries-AllVouched, entries-IsUniform, merge-AllVouched, merge-IsUniform,
}

-- An outcome leaves a sound file where the one before it was sound.
abbrev Leaves : Observation → List Observation → Recorded → Type 0
Leaves o os outcome =
    (file : Option Bindings) → IsSound os file → IsSound (o ∷ os) (store file outcome)

replaced_by-Leaves :
    (o : Observation) (os : List Observation)
    → o.may_bind ≡ true
    → Leaves o os (Recorded.replaced (replaced_by o))
unfolding store replaced_by
replaced_by-Leaves o os may file h = (
  entries-AllVouched o os (vouched o) (vouched-AreVouched o may),
  (o.head_seq, o.head_event, entries-IsUniform o (vouched o)),
)

nothing-Leaves : (o : Observation) (os : List Observation) → Leaves o os Recorded.nothing
unfolding store
nothing-Leaves o os file h = IsSound-later o os file h

ignored-Leaves : (o : Observation) (os : List Observation) → Leaves o os Recorded.ignored
unfolding store
ignored-Leaves o os file h = IsSound-later o os file h

replaced_if_any-Leaves :
    (o : Observation) (os : List Observation) (es : List ℕ)
    → o.may_bind ≡ true
    → Leaves o os (replaced_if_any o es)
unfolding replaced_if_any
replaced_if_any-Leaves o os [] may = nothing-Leaves o os
replaced_if_any-Leaves o os (e ∷ es) may = replaced_by-Leaves o os may

max_seq-IsUniform :
    (seq event recorded : ℕ) (bounds : List BoundEndpoint)
    → IsUniform seq event bounds
    → max_seq bounds ≡ some recorded
    → recorded ≡ seq
unfolding max_seq
max_seq-IsUniform seq event recorded [] h e = absurd cc
max_seq-IsUniform seq event recorded (bound ∷ bounds) h e = elim (Option-cases (max_seq bounds)) [
  | inl gone ↦
      let is : some bound.head_seq ≡ some recorded =
        ap (λ o. some (max_with bound.head_seq o)) (sym gone) ∙ e in
      let same : bound.head_seq ≡ recorded = cc in sym same ∙ h.0
  | inr (m, found) ↦
      let below = max_seq-IsUniform seq event m bounds h.2 found in
      let is : some (max_with bound.head_seq (some m)) ≡ some recorded =
        ap (λ o. some (max_with bound.head_seq o)) (sym found) ∙ e in
      ground (arith, is, below, h.0)
]

first_agrees :
    (recorded : ℕ) (o : Observation) (bound : BoundEndpoint) (bounds : List BoundEndpoint)
    → bound.head_seq ≡ recorded
    → divergent recorded o (bound ∷ bounds) ≡ false
    → bound.head_event ≡ o.head_event
unfolding divergent
first_agrees recorded o bound bounds at agree = ground (arith, at, agree)

-- Where no entry of one head diverges, that head is the observation's.
divergent-IsUniform :
    (seq event recorded : ℕ) (o : Observation) (bounds : List BoundEndpoint)
    → IsUniform seq event bounds
    → max_seq bounds ≡ some recorded
    → recorded ≡ o.head_seq
    → divergent recorded o bounds ≡ false
    → IsUniform o.head_seq o.head_event bounds
divergent-IsUniform seq event recorded o [] h e at agree = tt
divergent-IsUniform seq event recorded o (bound ∷ bounds) h e at agree =
    let is = max_seq-IsUniform seq event recorded (bound ∷ bounds) h e in
    let same_event = first_agrees recorded o bound bounds (h.0 ∙ sym is) agree in
    subst₂ (λ s v. IsUniform s v (bound ∷ bounds)) (sym is ∙ at) (sym h.1 ∙ same_event) h

merged-Leaves :
    (o : Observation) (os : List Observation) (es : List ℕ) (b : Bindings)
    → AreVouched o es
    → AllVouched os b.endpoints
    → IsUniform o.head_seq o.head_event b.endpoints
    → Leaves o os (refreshed_if_any o es b)
unfolding refreshed_if_any store
merged-Leaves o os [] b v all h = nothing-Leaves o os
merged-Leaves o os (e ∷ es) b v all h = λ file sound. (
  merge-AllVouched o os (e ∷ es) b.endpoints v (AllVouched-later o os b.endpoints all),
  (o.head_seq, o.head_event, merge-IsUniform o (e ∷ es) b.endpoints h),
)

equal-Leaves :
    (recorded : ℕ) (o : Observation) (os : List Observation) (b : Bindings)
    → o.may_bind ≡ true
    → IsSound os (some b)
    → max_seq b.endpoints ≡ some recorded
    → recorded ≡ o.head_seq
    → Leaves o os (
        if divergent recorded o b.endpoints
        then Recorded.cleared
        else refreshed_if_any o (vouched o) b)
unfolding store
equal-Leaves recorded o os b may sound e at = elim (Bool-cases (divergent recorded o b.endpoints)) [
  | inl diverges ↦
      let gone : Leaves o os Recorded.cleared = λ file h. tt in
      subst (λ t. Leaves o os (if t then Recorded.cleared else refreshed_if_any o (vouched o) b))
        (sym diverges) gone
  | inr agrees ↦
      let (seq, event, uniform) = sound.1 in
      let merged =
        merged-Leaves o os (vouched o) b (vouched-AreVouched o may) sound.0
          (divergent-IsUniform seq event recorded o b.endpoints uniform e at agrees) in
      subst (λ t. Leaves o os (if t then Recorded.cleared else refreshed_if_any o (vouched o) b))
        (sym agrees) merged
]

apply_at-Leaves :
    (recorded : Option ℕ) (o : Observation) (os : List Observation) (b : Bindings)
    → o.may_bind ≡ true
    → IsSound os (some b)
    → max_seq b.endpoints ≡ recorded
    → Leaves o os (apply_at recorded o b)
unfolding apply_at
apply_at-Leaves none o os b may sound e = replaced_if_any-Leaves o os (vouched o) may
apply_at-Leaves (some recorded) o os b may sound e = elim (Bool-cases (ltb o.head_seq recorded)) [
  | inl shorter ↦ let ignored = ignored-Leaves o os in rw shorter ignored
  | inr reaches ↦ elim (Bool-cases (ltb recorded o.head_seq)) [
    | inl longer ↦ let made = replaced_by-Leaves o os may in rw (reaches, longer) made
    | inr equal ↦
        let at : recorded ≡ o.head_seq = ground (arith, reaches, equal) in
        let same = equal-Leaves recorded o os b may sound e at in rw (reaches, equal) same
  ]
]

apply_to-Leaves :
    (existing : Option Bindings) (o : Observation) (os : List Observation)
    → o.may_bind ≡ true
    → IsSound os existing
    → Leaves o os (apply_to existing o)
unfolding recorded_seq
apply_to-Leaves none o os may sound = replaced_if_any-Leaves o os (vouched o) may
apply_to-Leaves (some b) o os may sound =
    apply_at-Leaves (max_seq b.endpoints) o os b may sound refl

-- Recording an observation keeps the record sound: every entry is vouched for by some observation
-- of good provenance that another endpoint served, and all entries derive from one head.
pub record_in-IsSound :
    (existing : Option Bindings) (o : Observation) (os : List Observation)
    → IsSound os existing
    → IsSound (o ∷ os) (record_in existing o).1
unfolding record_in apply
record_in-IsSound existing o os sound = elim (Bool-cases o.may_bind) [
  | inl may ↦
      subst
        (λ t.
          IsSound (o ∷ os) (store existing (if t then apply_to existing o else Recorded.nothing)))
        (sym may) (apply_to-Leaves existing o os may sound existing sound)
  | inr never ↦
      subst
        (λ t.
          IsSound (o ∷ os) (store existing (if t then apply_to existing o else Recorded.nothing)))
        (sym never) (nothing-Leaves o os existing sound)
]

-- The file after a list of observations, the newest first, from no file.
unfoldable pub file_after : List Observation → Option Bindings
unfolding record_in
file_after [] = none
file_after (o ∷ earlier) = (record_in (file_after earlier) o).1

file_after-IsSound : (os : List Observation) → IsSound os (file_after os)
unfolding file_after
file_after-IsSound [] = tt
file_after-IsSound (o ∷ earlier) =
    record_in-IsSound (file_after earlier) o earlier (file_after-IsSound earlier)

names-Vouched :
    (e : ℕ) (os : List Observation) (bounds : List BoundEndpoint)
    → AllVouched os bounds
    → names e bounds ≡ true
    → SomeVouches e os
unfolding names
names-Vouched e os [] h named = absurd cc
names-Vouched e os (bound ∷ bounds) h named = elim (Bool-cases (bound.endpoint == e)) [
  | inl here ↦
      let is : bound.endpoint ≡ e = ground (arith, here) in subst (λ n. SomeVouches n os) is h.0
  | inr apart ↦ names-Vouched e os bounds h.2 (ground (arith, apart, named))
]

-- After any observations of one identity, in any order, an endpoint is verified only where one of
-- them named it, had a provenance that may bind, and was served by another endpoint: no endpoint
-- becomes verified on evidence that it served itself.
pub binding-SomeVouches :
    (os : List Observation) (b : Bindings) (e : ℕ)
    → file_after os ≡ some b
    → binding e b ≡ Binding.verified
    → SomeVouches e os
unfolding binding
binding-SomeVouches os b e left bound =
    let sound : IsSound os (some b) = subst (IsSound os) left (file_after-IsSound os) in
    let named : names e b.endpoints ≡ true = ground (arith, bound) in
    names-Vouched e os b.endpoints sound.0 named

-- All entries of the record that any observations leave derive from one head, so the record is never
-- of two chains.
pub file_after-OneHead :
    (os : List Observation) (b : Bindings)
    → file_after os ≡ some b
    → (seq : ℕ) × (event : ℕ) × IsUniform seq event b.endpoints
file_after-OneHead os b left =
    let sound : IsSound os (some b) = subst (IsSound os) left (file_after-IsSound os) in sound.1
