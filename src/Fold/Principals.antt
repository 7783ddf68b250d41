-- ===== src/Fold/Principals.antt =====
-- The principal set under an admission and a removal of crates/mabel-core/src/fold.rs.
use mabel.Base.{
  ℕ, true, false, not, ◌&&◌, ◌≡◌, ◌⊎◌, inl, inr, Option, none, some, ◌==◌, refl, sym, arith,
  Bool-cases,
}
use mabel.Base.Map.{Map, get, find, insert, remove, IsOrdered}
use mabel.Base.MapLaws.{get-insert, get-remove, find-none}
use mabel.Proto.{Role}
use mabel.Fold.Reason.{ok, ◌>>=◌}
use mabel.Fold.State.{
  LedgerRoot, Principal, Invitation, LedgerState, is_controller, is_raw_root,
  controller_keys_without,
}
use mabel.Fold.Checks.{no_keys, is_another_with, is_held_controller, check_lowering, check_demotion}
use mabel.Fold.Controllers.{Controller, controller_keys_without-found}
use mabel.Fold.Rules.{controller_with}

-- No key is the key of two principals.
pub record DistinctKeys (m : Map Principal) : Type 0 where
  pub at :
      (a b : ℕ) (p q : Principal)
      → get a m ≡ some p
      → get b m ≡ some q
      → p.active_key ≡ q.active_key
      → a ≡ b

-- The ledger of a raw root stays a controller of itself, with the key of its inception.
pub record RootHeld (ledger : Option ℕ) (root : Option LedgerRoot) (m : Map Principal)
    : Type 0 where
  pub at :
      (l key commitment : ℕ)
      → ledger ≡ some l
      → root ≡ some (LedgerRoot.raw key commitment)
      → get l m ≡ some (controller_with key)

abbrev pub Controlled : Map Principal → Type 0
Controlled m = Controller (λ _. true) m

pub DistinctKeys-insert :
    (id : ℕ) (p : Principal) (m : Map Principal)
    → find (is_another_with p.active_key id) m ≡ none
    → DistinctKeys m
    → DistinctKeys (insert id p m)
DistinctKeys-insert id p m sole h = record {
  at = λ a b q r ea eb same. ground (
    arith,
    get-insert id a p m,
    get-insert id b p m,
    ea,
    eb,
    h.at a b q r,
    find-none (is_another_with p.active_key id) a q m sole,
    find-none (is_another_with p.active_key id) b r m sole,
  );
}

pub DistinctKeys-remove : (id : ℕ) (m : Map Principal) → DistinctKeys m → DistinctKeys (remove id m)
DistinctKeys-remove id m h = record {
  at = λ a b q r ea eb same.
      ground (arith, get-remove id a m, get-remove id b m, ea, eb, h.at a b q r);
}

-- A controller other than `id` stays one when the entry of `id` changes or goes.
Controlled-insert :
    (id : ℕ) (p : Principal) (m : Map Principal)
    → Controller (λ k. not (k == id)) m
    → Controlled (insert id p m)
Controlled-insert id p m c = record {
  who = c.who;
  principal = c.principal;
  held = ground (arith, get-insert id c.who p m, c.held, c.kept);
  controls = c.controls;
  kept = refl;
}

Controlled-remove :
    (id : ℕ) (m : Map Principal) → Controller (λ k. not (k == id)) m → Controlled (remove id m)
Controlled-remove id m c = record {
  who = c.who;
  principal = c.principal;
  held = ground (arith, get-remove id c.who m, c.held, c.kept);
  controls = c.controls;
  kept = refl;
}

-- A controller of the set is another than `id`, unless `id` is a controller itself.
other_holder :
    (id : ℕ) (m : Map Principal)
    → is_held_controller (get id m) ≡ false
    → Controlled m
    → Controller (λ k. not (k == id)) m
other_holder id m free c = record {
  who = c.who;
  principal = c.principal;
  held = c.held;
  controls = c.controls;
  kept = elim (Bool-cases (c.who == id)) [
    | inl same ↦ absurd (ground (arith, same, c.held, c.controls, free))
    | inr other ↦ rw other
  ];
}

is_controller-eq : (r : Role) → is_controller r ≡ true → r ≡ Role.controller
is_controller-eq Role.controller h = refl
is_controller-eq Role.member h = cc
is_controller-eq Role.role_unspecified h = cc

pub record MayLower (s : LedgerState) (target : ℕ) : Type 0 where
  pub not_raw_root : is_raw_root s target ≡ false
  pub others : no_keys (controller_keys_without s target) ≡ false

-- A passed lowering keeps the role, or names no controller, or leaves another controller.
pub check_lowering-cases :
    (s : LedgerState) (i : Invitation)
    → check_lowering s i ≡ ok tt
    → (is_controller i.role ≡ true)
      ⊎ ((is_held_controller (get i.invitee s.principals) ≡ false) ⊎ MayLower s i.invitee)
unfolding check_lowering check_demotion ◌>>=◌
check_lowering-cases s i h = elim (Bool-cases (is_controller i.role)) [
  | inl controls ↦ inl controls
  | inr lowers ↦ elim (Bool-cases (is_held_controller (get i.invitee s.principals))) [
    | inr free ↦ inr (inl free)
    | inl held ↦ inr (
        inr (record {
          not_raw_root = ground (arith, lowers, held);
          others = ground (arith, lowers, held);
        }))
  ]
]

-- An admission keeps a controller.
pub Controlled-admit :
    (s : LedgerState) (i : Invitation) (p : Principal)
    → IsOrdered s.principals
    → p.role ≡ i.role
    → check_lowering s i ≡ ok tt
    → Controlled s.principals
    → Controlled (insert i.invitee p s.principals)
Controlled-admit s i p ordered role lowering c = elim (check_lowering-cases s i lowering) [
  | inl controls ↦ record {
    who = i.invitee;
    principal = p;
    held = ground (arith, get-insert i.invitee i.invitee p s.principals);
    controls = rw role controls;
    kept = refl;
  }
  | inr (inl free) ↦
      Controlled-insert i.invitee p s.principals (other_holder i.invitee s.principals free c)
  | inr (inr m) ↦
      Controlled-insert i.invitee p s.principals
        (controller_keys_without-found s i.invitee ordered m.others)
]

-- A removal keeps a controller.
pub Controlled-remove_allowed :
    (s : LedgerState) (target : ℕ)
    → IsOrdered s.principals
    → (is_held_controller (get target s.principals) && no_keys (controller_keys_without s target))
      ≡ false
    → Controlled s.principals
    → Controlled (remove target s.principals)
Controlled-remove_allowed s target ordered others c =
    elim (Bool-cases (is_held_controller (get target s.principals))) [
      | inr free ↦ Controlled-remove target s.principals (other_holder target s.principals free c)
      | inl held ↦
          Controlled-remove target s.principals
            (controller_keys_without-found s target ordered (ground (arith, held, others)))
    ]

-- Under a raw root, `is_raw_root` holds of the ledger itself.
is_raw_root-ledger :
    (s : LedgerState) (l key commitment : ℕ)
    → s.ledger ≡ some l
    → s.root ≡ some (LedgerRoot.raw key commitment)
    → is_raw_root s l ≡ true
unfolding is_raw_root
is_raw_root-ledger s l key commitment named rooted = ground (arith, named, rooted)

pub RootHeld-remove :
    (s : LedgerState) (target : ℕ)
    → is_raw_root s target ≡ false
    → RootHeld s.ledger s.root s.principals
    → RootHeld s.ledger s.root (remove target s.principals)
RootHeld-remove s target free h = record {
  at = λ l key commitment named rooted. ground (
    arith,
    get-remove target l s.principals,
    h.at l key commitment named rooted,
    is_raw_root-ledger s l key commitment named rooted,
  );
}

controller_with-eq :
    (p : Principal) (key : ℕ)
    → is_controller p.role ≡ true
    → p.active_key ≡ key
    → p ≡ controller_with key
controller_with-eq p key controls same = ground (arith, is_controller-eq p.role controls, same)

pub RootHeld-admit :
    (s : LedgerState) (i : Invitation) (p : Principal)
    → p.role ≡ i.role
    → ((q : Principal) → get i.invitee s.principals ≡ some q → q.active_key ≡ p.active_key)
    → check_lowering s i ≡ ok tt
    → RootHeld s.ledger s.root s.principals
    → RootHeld s.ledger s.root (insert i.invitee p s.principals)
RootHeld-admit s i p role same_key lowering h = record {
  at = λ l key commitment named rooted.
      let held = h.at l key commitment named rooted in
      elim (Bool-cases (i.invitee == l)) [
        | inr other ↦ ground (arith, other, get-insert i.invitee l p s.principals, held)
        | inl self ↦ elim (check_lowering-cases s i lowering) [
          | inl controls ↦
              let p_controls : is_controller p.role ≡ true = rw role controls in
              ground (
                arith,
                self,
                held,
                get-insert i.invitee l p s.principals,
                controller_with-eq p key p_controls
                    (sym (same_key (controller_with key) (ground (arith, self, held)))),
              )
          | inr (inl free) ↦ absurd (ground (arith, self, free, held))
          | inr (inr m) ↦ absurd (
              ground
                (arith, self, m.not_raw_root, is_raw_root-ledger s l key commitment named rooted))
        ]
      ];
}
