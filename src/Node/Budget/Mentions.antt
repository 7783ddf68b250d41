-- ===== src/Node/Budget/Mentions.antt =====
-- The dial budget of crates/mabel-node/src/graph/resolve.rs over the mentions of one operation.
use mabel.Base.{
  ℕ, ◌<◌, true, List, [], ◌∷◌, ◌≡◌, ◌≢◌, inl, inr, refl, arith, leb, is_some, Bool-cases,
  Option-cases,
}
use mabel.Base.Map.{get}
use mabel.Base.MapLaws.{get-insert}
use mabel.Node.Budget.{
  SourceClass, DialBudget, fresh, cap, spent_by, dialled, ceiling, charge, admit_dial, admit,
}
use mabel.Node.Budget.Bounds.{IsWithin, charge-IsWithin}

admit_dial-IsWithin :
    (class : SourceClass) (endpoint : ℕ) (b : DialBudget)
    → class ≢ SourceClass.local_read
    → IsWithin b
    → IsWithin (admit_dial class endpoint b).1
unfolding admit_dial
admit_dial-IsWithin class endpoint b h within = elim (Option-cases (get endpoint b.dialled)) [
  | inr (_, known) ↦ ground (arith, known, within)
  | inl new ↦ elim (Bool-cases (leb (cap class) (spent_by class b))) [
    | inl spent ↦ ground (arith, new, spent, within)
    | inr room ↦ elim (Bool-cases (leb (ceiling class b) (dialled b))) [
      | inl full ↦ ground (arith, new, room, full, within)
      | inr space ↦
          let charged =
            charge-IsWithin class endpoint b h new (ground (arith, room)) (ground (arith, space))
              within in
          ground (arith, new, room, space, charged)
    ]
  ]
]

-- Whatever class names whatever endpoint, `admit` keeps every bound of the budget: each class within
-- its cap, the spending of the classes together the count of dialled endpoints, at most 16 of them,
-- and at most 12 by other classes than the node's witnesses.
pub admit-IsWithin :
    (class : SourceClass) (endpoint : ℕ) (b : DialBudget)
    → IsWithin b
    → IsWithin (admit class endpoint b).1
unfolding admit
admit-IsWithin SourceClass.local_read endpoint b within = within
admit-IsWithin SourceClass.caller_hint endpoint b within =
    admit_dial-IsWithin SourceClass.caller_hint endpoint b (λ e. cc) within
admit-IsWithin SourceClass.peer_hint endpoint b within =
    admit_dial-IsWithin SourceClass.peer_hint endpoint b (λ e. cc) within
admit-IsWithin SourceClass.node_witness endpoint b within =
    admit_dial-IsWithin SourceClass.node_witness endpoint b (λ e. cc) within
admit-IsWithin SourceClass.chain_named endpoint b within =
    admit_dial-IsWithin SourceClass.chain_named endpoint b (λ e. cc) within
admit-IsWithin SourceClass.dns endpoint b within =
    admit_dial-IsWithin SourceClass.dns endpoint b (λ e. cc) within

-- The budget after a list of mentions, the first of them first.
unfoldable pub admit_all : List (SourceClass × ℕ) → DialBudget → DialBudget
unfolding admit
admit_all [] b = b
admit_all ((class, endpoint) ∷ mentions) b = admit_all mentions (admit class endpoint b).1

fresh-IsWithin : IsWithin fresh
unfolding spent_by dialled get cap
fresh-IsWithin = record {
  by_class = λ class. omega arith;
  all_spent = refl;
  in_all = omega arith;
  four_left = omega arith;
}

admit_all-IsWithin :
    (mentions : List (SourceClass × ℕ)) (b : DialBudget)
    → IsWithin b
    → IsWithin (admit_all mentions b)
unfolding admit_all
admit_all-IsWithin [] b within = within
admit_all-IsWithin ((class, endpoint) ∷ mentions) b within =
    admit_all-IsWithin mentions (admit class endpoint b).1 (admit-IsWithin class endpoint b within)

-- Whatever endpoints an operation names, in whatever order and from whatever classes, it dials at
-- most 16, no class spends more than its cap, and all classes but the node's witnesses together
-- spend at most 12.
pub admit_all-Bounds : (mentions : List (SourceClass × ℕ)) → IsWithin (admit_all mentions fresh)
admit_all-Bounds mentions = admit_all-IsWithin mentions fresh fresh-IsWithin

-- Whatever the others named before, a configured witness of the node is admitted while such
-- witnesses have spent fewer than four: the four slots are kept for them.
pub admit_all-reserves :
    (mentions : List (SourceClass × ℕ)) (endpoint : ℕ)
    → spent_by SourceClass.node_witness (admit_all mentions fresh) < 4
    → (admit SourceClass.node_witness endpoint (admit_all mentions fresh)).0 ≡ true
unfolding admit admit_dial ceiling cap
admit_all-reserves mentions endpoint few =
    let within = admit_all-Bounds mentions in
    let all = within.all_spent in let four = within.four_left in ground (arith, all, four, few)

admit_dial-again :
    (class : SourceClass) (endpoint : ℕ) (b : DialBudget)
    → (admit_dial class endpoint b).0 ≡ true
    → is_some (get endpoint (admit_dial class endpoint b).1.dialled) ≡ true
unfolding admit_dial charge
admit_dial-again class endpoint b h =
    let look = get-insert endpoint endpoint tt b.dialled in ground (arith, look)

known_again :
    (class : SourceClass) (endpoint : ℕ) (b : DialBudget)
    → is_some (get endpoint b.dialled) ≡ true
    → admit class endpoint b ≡ (true, b)
unfolding admit admit_dial
known_again SourceClass.local_read endpoint b h = refl
known_again SourceClass.caller_hint endpoint b h = ground (arith, h)
known_again SourceClass.peer_hint endpoint b h = ground (arith, h)
known_again SourceClass.node_witness endpoint b h = ground (arith, h)
known_again SourceClass.chain_named endpoint b h = ground (arith, h)
known_again SourceClass.dns endpoint b h = ground (arith, h)

charge-keeps :
    (class : SourceClass) (endpoint other : ℕ) (b : DialBudget)
    → is_some (get other b.dialled) ≡ true
    → is_some (get other (charge class endpoint b).dialled) ≡ true
unfolding charge
charge-keeps class endpoint other b h =
    let look = get-insert endpoint other tt b.dialled in ground (arith, look, h)

admit_dial-keeps :
    (class : SourceClass) (endpoint other : ℕ) (b : DialBudget)
    → is_some (get other b.dialled) ≡ true
    → is_some (get other (admit_dial class endpoint b).1.dialled) ≡ true
unfolding admit_dial
admit_dial-keeps class endpoint other b h =
    let kept = charge-keeps class endpoint other b h in ground (arith, kept, h)

admit-keeps :
    (class : SourceClass) (endpoint other : ℕ) (b : DialBudget)
    → is_some (get other b.dialled) ≡ true
    → is_some (get other (admit class endpoint b).1.dialled) ≡ true
unfolding admit
admit-keeps SourceClass.local_read endpoint other b h = h
admit-keeps SourceClass.caller_hint endpoint other b h =
    admit_dial-keeps SourceClass.caller_hint endpoint other b h
admit-keeps SourceClass.peer_hint endpoint other b h =
    admit_dial-keeps SourceClass.peer_hint endpoint other b h
admit-keeps SourceClass.node_witness endpoint other b h =
    admit_dial-keeps SourceClass.node_witness endpoint other b h
admit-keeps SourceClass.chain_named endpoint other b h =
    admit_dial-keeps SourceClass.chain_named endpoint other b h
admit-keeps SourceClass.dns endpoint other b h = admit_dial-keeps SourceClass.dns endpoint other b h

admit_all-keeps :
    (mentions : List (SourceClass × ℕ)) (other : ℕ) (b : DialBudget)
    → is_some (get other b.dialled) ≡ true
    → is_some (get other (admit_all mentions b).dialled) ≡ true
unfolding admit_all
admit_all-keeps [] other b h = h
admit_all-keeps ((class, endpoint) ∷ mentions) other b h =
    admit_all-keeps mentions other (admit class endpoint b).1 (admit-keeps class endpoint other b h)

-- What a class that dials admits is in the set of dialled endpoints.
admit-holds :
    (class : SourceClass) (endpoint : ℕ) (b : DialBudget)
    → class ≢ SourceClass.local_read
    → (admit class endpoint b).0 ≡ true
    → is_some (get endpoint (admit class endpoint b).1.dialled) ≡ true
unfolding admit
admit-holds SourceClass.local_read endpoint b dials h = absurd (dials refl)
admit-holds SourceClass.caller_hint endpoint b dials h =
    admit_dial-again SourceClass.caller_hint endpoint b h
admit-holds SourceClass.peer_hint endpoint b dials h =
    admit_dial-again SourceClass.peer_hint endpoint b h
admit-holds SourceClass.node_witness endpoint b dials h =
    admit_dial-again SourceClass.node_witness endpoint b h
admit-holds SourceClass.chain_named endpoint b dials h =
    admit_dial-again SourceClass.chain_named endpoint b h
admit-holds SourceClass.dns endpoint b dials h = admit_dial-again SourceClass.dns endpoint b h

-- An endpoint that a class which dials was once admitted for is never charged again: whatever was
-- named before it and whatever was named since, by whatever classes, any class that names it is
-- admitted and the budget stays as it is.
pub admit_all-once :
    (before since : List (SourceClass × ℕ)) (class other : SourceClass) (endpoint : ℕ)
    → class ≢ SourceClass.local_read
    → (admit class endpoint (admit_all before fresh)).0 ≡ true
    → admit other endpoint (admit_all since (admit class endpoint (admit_all before fresh)).1)
      ≡ (true, admit_all since (admit class endpoint (admit_all before fresh)).1)
admit_all-once before since class other endpoint dials h =
    let b = (admit class endpoint (admit_all before fresh)).1 in
    let held = admit-holds class endpoint (admit_all before fresh) dials h in
    known_again other endpoint (admit_all since b) (admit_all-keeps since endpoint b held)
