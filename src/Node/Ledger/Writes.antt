-- ===== src/Node/Ledger/Writes.antt =====
-- What a batch that passes the checks of `write_events`, crates/mabel-node/src/ledger.rs, is, and
-- what writing it does to the event files.
use mabel.Base.{
  ℕ, true, false, Option, none, some, List, [], ◌∷◌, ◌≡◌, ◌⊎◌, inl, inr, refl, arith, Option-cases,
}
use mabel.Base.Bytes.{Bytes}
use mabel.Base.Map.{Map, get, insert}
use mabel.Base.MapLaws.{get-insert}
use mabel.Crypto.{Crypto}
use mabel.Validate.Cardinality.{bytes_eq}
use mabel.Node.Ledger.{NewEvent, Answer, next_u64, event_id_of, holds_other_bytes}
use mabel.Node.Ledger.Append.{write_all, check_event, check_batch}

pub bytes_eq-true : (a b : Bytes) → bytes_eq a b ≡ true → a ≡ b
unfolding bytes_eq
bytes_eq-true [] [] h = refl
bytes_eq-true [] (y ∷ b) h = cc
bytes_eq-true (x ∷ a) [] h = cc
bytes_eq-true (x ∷ a) (y ∷ b) h = ground (arith, bytes_eq-true a b)

-- No event file holds other bytes than these at `seq`.
abbrev pub IsFree : ℕ → Bytes → Map Bytes → Type 0
IsFree seq bytes stored = (get seq stored ≡ none) ⊎ (get seq stored ≡ some bytes)

holds_other_bytes-IsFree :
    (seq : ℕ) (bytes : Bytes) (stored : Map Bytes)
    → holds_other_bytes seq bytes stored ≡ false
    → IsFree seq bytes stored
unfolding holds_other_bytes
holds_other_bytes-IsFree seq bytes stored h = elim (Option-cases (get seq stored)) [
  | inl e ↦ inl e
  | inr (held, e) ↦ inr (ground (arith, e, bytes_eq-true held bytes))
]

module _ (c : Crypto) (decode : Bytes → Option Bytes) where
  -- The batch runs on from `want`, each event has the id it claims, and none would replace bytes.
  abbrev pub IsBatch : (want : ℕ) → List NewEvent → Map Bytes → Type 0
  IsBatch want [] stored = Unit
  IsBatch want (event ∷ events) stored =
      (event.seq ≡ want)
      × (event_id_of c decode event.seq event.bytes ≡ Answer.answer event.event_id)
      × IsFree event.seq event.bytes stored
      × IsBatch (next_u64 want) events stored

  check_event-answers :
      (want : ℕ) (event : NewEvent) (stored : Map Bytes)
      → check_event c decode want event stored ≡ Answer.answer tt
      → (event.seq ≡ want)
        × (event_id_of c decode event.seq event.bytes ≡ Answer.answer event.event_id)
        × IsFree event.seq event.bytes stored
  unfolding check_event
  check_event-answers want event stored h =
      let free = holds_other_bytes-IsFree event.seq event.bytes stored in ground (arith, free)

  pub check_batch-IsBatch :
      (want : ℕ) (events : List NewEvent) (stored : Map Bytes)
      → check_batch c decode want events stored ≡ Answer.answer tt
      → IsBatch want events stored
  unfolding check_batch
  check_batch-IsBatch want [] stored h = tt
  check_batch-IsBatch want (event ∷ events) stored h =
      let head = check_event-answers want event stored in
      let tail = check_batch-IsBatch (next_u64 want) events stored in ground (arith, head, tail)

  -- Bytes that were stored before the batch are still stored once it is written.
  pub write_all-keeps :
      (want : ℕ) (events : List NewEvent) (before stored : Map Bytes) (k : ℕ) (b : Bytes)
      → IsBatch want events before
      → get k before ≡ some b
      → get k stored ≡ some b
      → get k (write_all events stored) ≡ some b
  unfolding write_all
  write_all-keeps want [] before stored k b h e e' = e'
  write_all-keeps want (event ∷ events) before stored k b h e e' =
      let look = get-insert event.seq k event.bytes stored in
      let kept : get k (insert event.seq event.bytes stored) ≡ some b = ground (arith, look, h.2) in
      write_all-keeps (next_u64 want) events before (insert event.seq event.bytes stored) k b h.3 e
        kept
