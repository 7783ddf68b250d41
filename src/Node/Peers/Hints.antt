-- ===== src/Node/Peers/Hints.antt =====
-- The hints of one ledger, crates/mabel-node/src/peers.rs, under the operations on them.
use mabel.Base.{
  ℕ, zero, suc, ◌+◌, ◌≤◌, ◌<◌, false, ◌||◌, List, [], ◌∷◌, ◌++◌, ◌≡◌, refl, inl, inr, arith, ◌==◌,
  ltb, Bool-cases,
}
use mabel.Base.Bytes.{length, length-append}
use mabel.Node.Peers.{
  PeerHint, served, refresh, refresh_in, names, oldest_from, oldest, remove_at, remove_oldest, trim,
  max_hints,
}

-- No two hints name one endpoint.
abbrev pub IsDistinct : List PeerHint → Type 0
IsDistinct [] = Unit
IsDistinct (hint ∷ hints) = (names hint.endpoint hints ≡ false) × IsDistinct hints

-- At least one hint and at most eight, of distinct endpoints.
abbrev pub IsTidy : List PeerHint → Type 0
IsTidy hints = IsDistinct hints × (1 ≤ length hints) × (length hints ≤ 8)

names-refresh_in :
    (e endpoint now : ℕ) (hints : List PeerHint)
    → names e (refresh_in endpoint now hints) ≡ names e hints
unfolding names refresh_in refresh
names-refresh_in e endpoint now [] = refl
names-refresh_in e endpoint now (hint ∷ hints) =
    ground (arith, names-refresh_in e endpoint now hints)

length-refresh_in :
    (endpoint now : ℕ) (hints : List PeerHint)
    → length (refresh_in endpoint now hints) ≡ length hints
unfolding refresh_in
length-refresh_in endpoint now [] = refl
length-refresh_in endpoint now (hint ∷ hints) = ground (arith, length-refresh_in endpoint now hints)

refresh_in-IsDistinct :
    (endpoint now : ℕ) (hints : List PeerHint)
    → IsDistinct hints
    → IsDistinct (refresh_in endpoint now hints)
unfolding refresh_in refresh
refresh_in-IsDistinct endpoint now [] h = tt
refresh_in-IsDistinct endpoint now (hint ∷ hints) h =
    let same = names-refresh_in hint.endpoint endpoint now hints in
    ground (arith, refresh_in-IsDistinct endpoint now hints, same, h)

pub names-append :
    (e : ℕ) (hints : List PeerHint) (hint : PeerHint)
    → names e (hints ++ hint ∷ []) ≡ (names e hints || hint.endpoint == e)
unfolding names
names-append e [] hint = ground arith
names-append e (other ∷ hints) hint = ground (arith, names-append e hints hint)

push-IsDistinct :
    (hints : List PeerHint) (hint : PeerHint)
    → names hint.endpoint hints ≡ false
    → IsDistinct hints
    → IsDistinct (hints ++ hint ∷ [])
unfolding names
push-IsDistinct [] hint new h = (refl, tt)
push-IsDistinct (other ∷ hints) hint new h =
    let look = names-append other.endpoint hints hint in
    ground (arith, push-IsDistinct hints hint, look)

names-remove_at :
    (e n : ℕ) (hints : List PeerHint) → names e hints ≡ false → names e (remove_at n hints) ≡ false
unfolding names remove_at
names-remove_at e n [] h = refl
names-remove_at e zero (hint ∷ hints) h = ground arith
names-remove_at e (suc n) (hint ∷ hints) h = ground (arith, names-remove_at e n hints)

remove_at-IsDistinct :
    (n : ℕ) (hints : List PeerHint) → IsDistinct hints → IsDistinct (remove_at n hints)
unfolding remove_at
remove_at-IsDistinct n [] h = tt
remove_at-IsDistinct zero (hint ∷ hints) h = h.1
remove_at-IsDistinct (suc n) (hint ∷ hints) h =
    (names-remove_at hint.endpoint n hints h.0, remove_at-IsDistinct n hints h.1)

length-remove_at :
    (n : ℕ) (hints : List PeerHint)
    → n < length hints
    → suc (length (remove_at n hints)) ≡ length hints
unfolding remove_at
length-remove_at n [] h = absurd (omega (arith, h))
length-remove_at zero (hint ∷ hints) h = refl
length-remove_at (suc n) (hint ∷ hints) h =
    let ih = length-remove_at n hints (omega (arith, h)) in omega (arith, ih)

oldest_from-lt :
    (at : ℕ) (best : PeerHint) (index : ℕ) (hints : List PeerHint)
    → at < index
    → oldest_from at best index hints < index + length hints
unfolding oldest_from
oldest_from-lt at best index [] h = omega (arith, h)
oldest_from-lt at best index (hint ∷ hints) h =
    let kept = oldest_from-lt at best (suc index) hints (omega (arith, h)) in
    let moved = oldest_from-lt index hint (suc index) hints (omega arith) in
    ground (arith, kept, moved)

remove_oldest-IsDistinct :
    (hints : List PeerHint) → IsDistinct hints → IsDistinct (remove_oldest hints (oldest hints))
unfolding oldest
remove_oldest-IsDistinct [] h = tt
remove_oldest-IsDistinct (hint ∷ hints) h =
    remove_at-IsDistinct (oldest_from 0 hint 1 hints) (hint ∷ hints) h

length-remove_oldest :
    (hints : List PeerHint)
    → 1 ≤ length hints
    → suc (length (remove_oldest hints (oldest hints))) ≡ length hints
unfolding oldest
length-remove_oldest [] h = absurd (omega (arith, h))
length-remove_oldest (hint ∷ hints) h =
    length-remove_at (oldest_from 0 hint 1 hints) (hint ∷ hints)
      (omega (arith, oldest_from-lt 0 hint 1 hints (omega arith)))

-- Trimming leaves a tidy list: the fuel of one pass for each hint is enough.
trim-IsTidy :
    (fuel : ℕ) (hints : List PeerHint)
    → IsDistinct hints
    → 1 ≤ length hints
    → length hints ≤ fuel + 8
    → IsTidy (trim fuel hints)
unfolding trim
trim-IsTidy zero hints h some_hint small = (h, some_hint, omega (arith, small))
trim-IsTidy (suc fuel) hints h some_hint small = elim (Bool-cases (ltb max_hints (length hints))) [
  | inl over ↦
      let less = length-remove_oldest hints some_hint in
      let ih =
        trim-IsTidy fuel (remove_oldest hints (oldest hints)) (remove_oldest-IsDistinct hints h)
          (ground (arith, over, less)) (omega (arith, less, small)) in
      ground (arith, over, ih)
  | inr fits ↦ ground (arith, fits, h, some_hint)
]

-- A new endpoint's hint joins a list that was tidy, or empty.
pub pushed-IsTidy :
    (endpoint now : ℕ) (hints : List PeerHint)
    → IsDistinct hints
    → names endpoint hints ≡ false
    → IsTidy (trim (length (hints ++ served endpoint now ∷ [])) (hints ++ served endpoint now ∷ []))
unfolding served
pushed-IsTidy endpoint now hints h new =
    let pushed = hints ++ served endpoint now ∷ [] in
    let size = length-append hints (served endpoint now ∷ []) in
    trim-IsTidy (length pushed) pushed (push-IsDistinct hints (served endpoint now) new h)
      (omega (arith, size)) (omega arith)

pub refresh_in-IsTidy :
    (endpoint now : ℕ) (hints : List PeerHint)
    → IsTidy hints
    → IsTidy (refresh_in endpoint now hints)
refresh_in-IsTidy endpoint now hints h =
    let size = length-refresh_in endpoint now hints in
    (
      refresh_in-IsDistinct endpoint now hints h.0,
      omega (arith, size, h.1),
      omega (arith, size, h.2),
    )
