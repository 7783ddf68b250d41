-- ===== src/Node/Resolve/Once.antt =====
-- A witness is resolved once and to distinct endpoints: crates/mabel-node/src/graph/resolve.rs.
use mabel.Base.{
  ℕ, true, false, not, ◌&&◌, ◌||◌, Option, none, some, List, [], ◌∷◌, ◌++◌, ◌≡◌, refl, ap, sym, ◌∙◌,
  inl, inr, arith, ◌==◌, is_some, Bool-cases, Option-cases, if_both,
}
use mathlib.Core.Path.{subst}
use mabel.Base.Map.{get}
use mabel.Base.MapLaws.{get-insert, get-remove}
use mabel.Node.Resolve.{
  LocalCopy, Sources, has, push, push_all, is_ledger, push_local, gather, resolve_witness,
  ResolutionState, unresolved, enter, leave,
}

-- No endpoint is listed twice.
abbrev pub AreDistinct : List ℕ → Type 0
AreDistinct [] = Unit
AreDistinct (x ∷ xs) = (has x xs ≡ false) × AreDistinct xs

has-append : (x y : ℕ) (xs : List ℕ) → has x (xs ++ y ∷ []) ≡ (has x xs || y == x)
unfolding has
has-append x y [] = ground arith
has-append x y (z ∷ xs) = ground (arith, has-append x y xs)

append-AreDistinct :
    (x : ℕ) (xs : List ℕ) → has x xs ≡ false → AreDistinct xs → AreDistinct (xs ++ x ∷ [])
unfolding has
append-AreDistinct x [] new h = (refl, tt)
append-AreDistinct x (y ∷ xs) new h =
    let look = has-append y x xs in ground (arith, append-AreDistinct x xs, look)

push_all-AreDistinct : (more xs : List ℕ) → AreDistinct xs → AreDistinct (push_all more xs)
unfolding push_all push
push_all-AreDistinct [] xs h = h
push_all-AreDistinct (x ∷ more) xs h =
    let pushed : AreDistinct (push x xs) = elim (Bool-cases (has x xs)) [
      | inl old ↦ rw old h
      | inr new ↦ let longer = append-AreDistinct x xs new h in rw new longer
    ] in
    push_all-AreDistinct more (push x xs) pushed

push_local-AreDistinct :
    (witness : ℕ) (copy : Option LocalCopy) (xs : List ℕ)
    → AreDistinct xs
    → AreDistinct (push_local witness copy xs)
unfolding push_local
push_local-AreDistinct witness none xs h = h
push_local-AreDistinct witness (some copy) xs h =
    if_both AreDistinct (not copy.is_empty && not copy.violates && is_ledger witness copy.ledger)
      (push_all-AreDistinct copy.witness_endpoints (push_all copy.endpoints xs)
        (push_all-AreDistinct copy.endpoints xs h))
      h

abbrev AreDistinctIf : Option (List ℕ) → Type 0
AreDistinctIf none = Unit
AreDistinctIf (some xs) = AreDistinct xs

gather-AreDistinctIf :
    (witness : ℕ) (s : Sources) (peers config : Option (List ℕ))
    → AreDistinctIf (gather witness s peers config)
gather-AreDistinctIf witness s none config = tt
gather-AreDistinctIf witness s (some peers) none = tt
gather-AreDistinctIf witness s (some peers) (some config) =
    let hinted = push_all peers (push_all s.caller_hints []) in
    push_all-AreDistinct config (push_local witness s.local_copy hinted) (
      push_local-AreDistinct witness s.local_copy hinted (
        push_all-AreDistinct peers (push_all s.caller_hints [])
          (push_all-AreDistinct s.caller_hints [] tt)))

-- One lock of the state: a resolution entered, or one left with what it gave.
pub data Lock : Type 0 where
  entered : (witness : ℕ) → Lock
  left : (witness : ℕ) → Option (List ℕ) → Lock

unfoldable pub locked : Lock → ResolutionState → ResolutionState
unfolding enter leave
locked (Lock.entered witness) s = (enter witness s).1
locked (Lock.left witness result) s = leave witness result s

-- The state after a list of locks, the newest first.
unfoldable pub state_after : List Lock → ResolutionState
unfolding locked
state_after [] = unresolved
state_after (lock ∷ earlier) = locked lock (state_after earlier)

-- A resolution is left only while it runs.
abbrev pub MayFollow : Lock → ResolutionState → Type 0
MayFollow (Lock.entered witness) s = Unit
MayFollow (Lock.left witness result) s = is_some (get witness s.resolving) ≡ true

abbrev pub IsSchedule : List Lock → Type 0
IsSchedule [] = Unit
IsSchedule (lock ∷ earlier) = MayFollow lock (state_after earlier) × IsSchedule earlier

-- What is being resolved is not resolved yet.
abbrev IsExclusive : ResolutionState → Type 0
IsExclusive s =
    (witness : ℕ) → is_some (get witness s.resolving) ≡ true → get witness s.resolved ≡ none

enter-IsExclusive :
    (witness : ℕ) (s : ResolutionState) → IsExclusive s → IsExclusive (enter witness s).1
unfolding enter
enter-IsExclusive witness s h other running =
    let look = get-insert witness other tt s.resolving in
    let before = h other in
    elim (Option-cases (get witness s.resolved)) [
      | inr (endpoints, e) ↦ ground (arith, look, before, running, e)
      | inl e ↦ elim (Bool-cases (witness == other)) [
        | inl same ↦
            let is : witness ≡ other = ground (arith, same) in
            let none_yet : get other s.resolved ≡ none = ap (λ n. get n s.resolved) (sym is) ∙ e in
            ground (arith, e, none_yet)
        | inr apart ↦ ground (arith, look, before, running, e, apart)
      ]
    ]

leave-IsExclusive :
    (witness : ℕ) (result : Option (List ℕ)) (s : ResolutionState)
    → IsExclusive s
    → IsExclusive (leave witness result s)
unfolding leave
leave-IsExclusive witness none s h other running =
    let look = get-remove witness other s.resolving in
    let before = h other in ground (arith, look, before, running)
leave-IsExclusive witness (some endpoints) s h other running =
    let look = get-remove witness other s.resolving in
    let stored = get-insert witness other endpoints s.resolved in
    let before = h other in ground (arith, look, stored, before, running)

state_after-IsExclusive : (locks : List Lock) → IsExclusive (state_after locks)
unfolding state_after locked get
state_after-IsExclusive [] = λ other running. refl
state_after-IsExclusive (Lock.entered witness ∷ earlier) =
    enter-IsExclusive witness (state_after earlier) (state_after-IsExclusive earlier)
state_after-IsExclusive (Lock.left witness result ∷ earlier) =
    leave-IsExclusive witness result (state_after earlier) (state_after-IsExclusive earlier)

enter-keeps :
    (other witness : ℕ) (s : ResolutionState)
    → get witness (enter other s).1.resolved ≡ get witness s.resolved
unfolding enter
enter-keeps other witness s = elim (Option-cases (get other s.resolved)) [
  | inl e ↦ ground (arith, e)
  | inr (endpoints, e) ↦ ground (arith, e)
]

leave-keeps :
    (other : ℕ) (result : Option (List ℕ)) (witness : ℕ) (endpoints : List ℕ) (s : ResolutionState)
    → IsExclusive s
    → is_some (get other s.resolving) ≡ true
    → get witness s.resolved ≡ some endpoints
    → get witness (leave other result s).resolved ≡ some endpoints
unfolding leave
leave-keeps other none witness endpoints s h running e = e
leave-keeps other (some found) witness endpoints s h running e =
    let free = h other running in
    let look = get-insert other witness found s.resolved in
    elim (Bool-cases (other == witness)) [
      | inl same ↦
          let is : other ≡ witness = ground (arith, same) in
          let taken : get other s.resolved ≡ some endpoints = ap (λ n. get n s.resolved) is ∙ e in
          absurd cc
      | inr apart ↦ ground (arith, look, apart, e)
    ]

lock-keeps :
    (lock : Lock) (earlier : List Lock) (witness : ℕ) (endpoints : List ℕ)
    → MayFollow lock (state_after earlier)
    → get witness (state_after earlier).resolved ≡ some endpoints
    → get witness (state_after (lock ∷ earlier)).resolved ≡ some endpoints
unfolding state_after locked
lock-keeps (Lock.entered other) earlier witness endpoints may e =
    enter-keeps other witness (state_after earlier) ∙ e
lock-keeps (Lock.left other result) earlier witness endpoints may e =
    leave-keeps other result witness endpoints (state_after earlier)
      (state_after-IsExclusive earlier) may e

schedule-keeps :
    (later earlier : List Lock) (witness : ℕ) (endpoints : List ℕ)
    → IsSchedule (later ++ earlier)
    → get witness (state_after earlier).resolved ≡ some endpoints
    → get witness (state_after (later ++ earlier)).resolved ≡ some endpoints
schedule-keeps [] earlier witness endpoints h e = e
schedule-keeps (lock ∷ later) earlier witness endpoints h e =
    lock-keeps lock (later ++ earlier) witness endpoints h.0
      (schedule-keeps later earlier witness endpoints h.1 e)

-- However the fetches of an operation take turns, a witness that was resolved once stays so: whatever
-- runs after, it is answered at once with the same endpoints, and the state, its count of
-- resolutions included, does not change.
pub enter-once :
    (later earlier : List Lock) (witness : ℕ) (endpoints : List ℕ)
    → IsSchedule (later ++ earlier)
    → get witness (state_after earlier).resolved ≡ some endpoints
    → enter witness (state_after (later ++ earlier))
      ≡ (some endpoints, state_after (later ++ earlier))
unfolding enter
enter-once later earlier witness endpoints h e =
    let held = schedule-keeps later earlier witness endpoints h e in ground (arith, held)

-- The endpoints that a witness resolves to are distinct, whatever the sources hold and repeat.
pub resolve_witness-AreDistinct :
    (witness : ℕ) (s : Sources) (endpoints : List ℕ)
    → resolve_witness witness s ≡ some endpoints
    → AreDistinct endpoints
unfolding resolve_witness
resolve_witness-AreDistinct witness s endpoints e =
    subst AreDistinctIf e (gather-AreDistinctIf witness s s.peers s.config)
