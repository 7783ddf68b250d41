-- ===== src/Fold/Controllers.antt =====
-- What the searches of a principal set find: crates/mabel-core/src/fold.rs, `signing_principal`,
-- `controller_keys` and `controller_keys_without`.
use mabel.Base.{
  ℕ, Bool, true, false, not, ◌&&◌, ◌≡◌, ◌≢◌, ◌⊎◌, inl, inr, none, ap, sym, some, List, [], ◌∷◌,
  ◌++◌, ◌==◌, refl, arith, if◌then◌else◌, Bool-cases, Option-cases,
}
use mabel.Base.Map.{Map, get, find, IsOrdered}
use mabel.Base.MapLaws.{find-some, find-none, IsAbove-get}
use mabel.Fold.State.{
  Principal, SigningPrincipal, LedgerState, is_controller, signs_with, signing_principal, contains,
  collect_keys, controller_keys_without,
}
use mabel.Fold.Checks.{no_keys}
use mathlib.Core.Bool.{false≢true}

-- A controller of the set whose id `keep` lets through.
pub record Controller (keep : ℕ → Bool) (m : Map Principal) : Type 0 where
  pub who : ℕ
  pub principal : Principal
  pub held : get who m ≡ some principal
  pub controls : is_controller principal.role ≡ true
  pub kept : keep who ≡ true

no_keys-append : (xs : List ℕ) (k : ℕ) → no_keys (xs ++ k ∷ []) ≡ false
no_keys-append [] k = refl
no_keys-append (x ∷ xs) k = refl

-- Keys collected from nothing come from a controller of the set.
collect_keys-found :
    (keep : ℕ → Bool) (m : Map Principal) (keys : List ℕ)
    → IsOrdered m
    → no_keys (collect_keys keep m keys) ≡ false
    → (no_keys keys ≡ false) ⊎ Controller keep m
unfolding collect_keys
collect_keys-found keep [] keys h e = inl e
collect_keys-found keep ((j, p) ∷ m) keys h e =
    elim (Bool-cases (keep j && (is_controller p.role && not (contains keys p.active_key)))) [
      | inl takes ↦ inr (record {
        who = j;
        principal = p;
        held = unfold get in ground arith;
        controls = ground arith;
        kept = ground arith;
      })
      | inr leaves ↦
          elim (collect_keys-found keep m keys h.1 (
            rw
              (← ap
                (λ b. no_keys (collect_keys keep m (if b then keys ++ p.active_key ∷ [] else keys)))
                leaves)
              e)) [
                | inl before ↦ inl before
                | inr found ↦ inr (record {
                  who = found.who;
                  principal = found.principal;
                  held =
                      unfold get in
                      ground (arith, found.held, IsAbove-get j found.who found.principal m h.0);
                  controls = found.controls;
                  kept = found.kept;
                })
              ]
    ]

pub controller_keys_without-found :
    (s : LedgerState) (target : ℕ)
    → IsOrdered s.principals
    → no_keys (controller_keys_without s target) ≡ false
    → Controller (λ id. not (id == target)) s.principals
unfolding controller_keys_without
controller_keys_without-found s target h e = elim (collect_keys-found _ s.principals [] h e) [
  | inl before ↦ absurd (false≢true (sym before))
  | inr found ↦ found
]

-- The signer is a controller of the set that holds the key.
pub record Signs (m : Map Principal) (key : ℕ) (signer : SigningPrincipal) : Type 0 where
  pub principal : Principal
  pub held : get signer.identity m ≡ some principal
  pub controls : is_controller principal.role ≡ true
  pub holds_key : principal.active_key ≡ key
  pub names_key : signer.key ≡ key

-- In a state whose principals are ordered by key, the identity that a key signs as is in the set,
-- is a controller and holds that key.
pub signing_principal-Signs :
    (s : LedgerState) (key : ℕ) (signer : SigningPrincipal)
    → IsOrdered s.principals
    → signing_principal s key ≡ some signer
    → Signs s.principals key signer
unfolding signing_principal
signing_principal-Signs s key signer h e =
    elim (Option-cases (find (signs_with key) s.principals)) [
      | inl missing ↦ absurd (ground (arith, missing))
      | inr ((id, p), found) ↦
          let at = find-some (signs_with key) id p s.principals h found in
          record {
            principal = p;
            held = ground (arith, found);
            controls = ground arith;
            holds_key = ground arith;
            names_key = ground (arith, found);
          }
    ]

-- Where no principal signs with a key, no controller of the set holds it.
pub signing_principal-none :
    (s : LedgerState) (key id : ℕ) (p : Principal)
    → signing_principal s key ≡ none
    → get id s.principals ≡ some p
    → is_controller p.role ≡ true
    → p.active_key ≢ key
unfolding signing_principal
signing_principal-none s key id p e held controls same =
    elim (Option-cases (find (signs_with key) s.principals)) [
      | inl missing ↦
          absurd (ground (arith, find-none (signs_with key) id p s.principals missing held))
      | inr ((j, q), found) ↦ absurd (ground (arith, found))
    ]
