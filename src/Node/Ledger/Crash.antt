-- ===== src/Node/Ledger/Crash.antt =====
-- A process that dies while it appends, crates/mabel-node/src/ledger.rs: some event files of the
-- batch are written, the head is not.
use mabel.Base.{
  ℕ, zero, suc, ◌+◌, ◌≤◌, ◌<◌, ◌^◌, Option, some, List, [], ◌∷◌, ◌≡◌, inl, inr, refl, ◌∙◌, arith,
  true, false,
}
use mabel.Base.Bytes.{Bytes, length, take}
use mabel.Base.Map.{Map, get, insert}
use mabel.Base.MapLaws.{get-insert}
use mabel.Crypto.{Crypto}
use mabel.Validate.Cardinality.{bytes_eq}
use mabel.Node.Ledger.{Answer, NewEvent, next_u64, holds_other_bytes}
use mabel.Node.Ledger.Append.{write_all, check_event, check_batch}
use mabel.Node.Ledger.Writes.{IsFree, IsBatch}
use mabel.Node.Ledger.Journal.{write_all-other}

pub bytes_eq_refl : (b : Bytes) → bytes_eq b b ≡ true
unfolding bytes_eq
bytes_eq_refl [] = refl
bytes_eq_refl (x ∷ b) = ground (arith, bytes_eq_refl b)

IsFree-holds_other_bytes :
    (seq : ℕ) (bytes : Bytes) (stored : Map Bytes)
    → IsFree seq bytes stored
    → holds_other_bytes seq bytes stored ≡ false
unfolding holds_other_bytes
IsFree-holds_other_bytes seq bytes stored (inl e) = ground (arith, e)
IsFree-holds_other_bytes seq bytes stored (inr e) = ground (arith, e, bytes_eq_refl bytes)

IsFree-same :
    (seq : ℕ) (bytes : Bytes) (stored stored' : Map Bytes)
    → get seq stored' ≡ get seq stored
    → IsFree seq bytes stored
    → IsFree seq bytes stored'
IsFree-same seq bytes stored stored' same (inl e) = inl (same ∙ e)
IsFree-same seq bytes stored stored' same (inr e) = inr (same ∙ e)

length-take : (n : ℕ) (events : List NewEvent) → length (take n events) ≤ length events
unfolding take
length-take zero events = omega arith
length-take (suc n) [] = omega arith
length-take (suc n) (event ∷ events) = omega (arith, length-take n events)

module _ (c : Crypto) (decode : Bytes → Option Bytes) where
  pub IsBatch-check_batch :
      (want : ℕ) (events : List NewEvent) (stored : Map Bytes)
      → IsBatch c decode want events stored
      → check_batch c decode want events stored ≡ Answer.answer tt
  unfolding check_batch check_event
  IsBatch-check_batch want [] stored h = refl
  IsBatch-check_batch want (event ∷ events) stored h =
      let free = IsFree-holds_other_bytes event.seq event.bytes stored h.2 in
      let rest = IsBatch-check_batch (next_u64 want) events stored h.3 in
      ground (arith, free, rest, h.0, h.1)

  pub IsBatch-take :
      (n want : ℕ) (events : List NewEvent) (stored : Map Bytes)
      → IsBatch c decode want events stored
      → IsBatch c decode want (take n events) stored
  unfolding take
  IsBatch-take zero want events stored h = tt
  IsBatch-take (suc n) want [] stored h = tt
  IsBatch-take (suc n) want (event ∷ events) stored h =
      (h.0, h.1, h.2, IsBatch-take n (next_u64 want) events stored h.3)

  -- An event file below where the batch starts is of no matter to it.
  IsBatch-insert :
      (want k : ℕ) (v : Bytes) (events : List NewEvent) (stored : Map Bytes)
      → k < want
      → want + length events < 2 ^ 64
      → IsBatch c decode want events stored
      → IsBatch c decode want events (insert k v stored)
  IsBatch-insert want k v [] stored below room h = tt
  IsBatch-insert want k v (event ∷ events) stored below room h =
      let look = get-insert k event.seq v stored in
      let same : get event.seq (insert k v stored) ≡ get event.seq stored =
        ground (arith, look, h.0, below) in
      let rest =
        IsBatch-insert (next_u64 want) k v events stored (omega (arith, below, room))
          (omega (arith, room)) h.3 in
      (h.0, h.1, IsFree-same event.seq event.bytes stored (insert k v stored) same h.2, rest)

  -- Where some of a batch is written already, the whole batch passes the checks again.
  pub IsBatch-written :
      (n want : ℕ) (events : List NewEvent) (stored : Map Bytes)
      → want + length events < 2 ^ 64
      → IsBatch c decode want events stored
      → IsBatch c decode want events (write_all (take n events) stored)
  unfolding take write_all
  IsBatch-written zero want events stored room h = h
  IsBatch-written (suc n) want [] stored room h = tt
  IsBatch-written (suc n) want (event ∷ events) stored room h =
      let stored' = insert event.seq event.bytes stored in
      let next : next_u64 want ≡ want + 1 = omega (arith, room) in
      let below : event.seq < next_u64 want = omega (arith, next, h.0) in
      let room' : next_u64 want + length events < 2 ^ 64 = omega (arith, next, room) in
      let rest' =
        IsBatch-insert (next_u64 want) event.seq event.bytes events stored below room' h.3 in
      let rest = IsBatch-written n (next_u64 want) events stored' room' rest' in
      let look = get-insert event.seq event.seq event.bytes stored in
      let kept =
        write_all-other c decode (next_u64 want) (take n events) stored' stored' event.seq below
          (omega (arith, room', length-take n events))
          (IsBatch-take n (next_u64 want) events stored' rest') in
      let held : get event.seq (write_all (take n events) stored') ≡ some event.bytes =
        ground (arith, look, kept) in
      (h.0, h.1, inr held, rest)
