-- ===== src/Node/Ledger/Journal.antt =====
-- What `read_all` gives after an `append`, crates/mabel-node/src/ledger.rs.
use mabel.Base.{
  ℕ, suc, ◌+◌, ◌<◌, ◌^◌, Option, none, some, List, [], ◌∷◌, map, ◌≡◌, refl, sym, ap, ◌∙◌, arith,
}
use mabel.Base.Bytes.{Bytes, length}
use mabel.Base.Map.{Map, get, insert}
use mabel.Base.MapLaws.{get-insert}
use mabel.Crypto.{Crypto}
use mabel.Node.Ledger.{Head, Answer, Files, NewEvent, next_u64}
use mabel.Node.Ledger.Append.{next_seq, last_of, write_all, check_batch, write_after}
use mabel.Node.Ledger.Steps.{bind-answers}
use mabel.Node.Ledger.Writes.{IsBatch, check_batch-IsBatch}
use mabel.Node.Ledger.Reads.{read_run, stored_as, read_run-put}

module _ (c : Crypto) (decode : Bytes → Option Bytes) where
  pub write_all-other :
      (want : ℕ) (events : List NewEvent) (before stored : Map Bytes) (k : ℕ)
      → k < want
      → want + length events < 2 ^ 64
      → IsBatch c decode want events before
      → get k (write_all events stored) ≡ get k stored
  unfolding write_all
  write_all-other want [] before stored k below room h = refl
  write_all-other want (event ∷ events) before stored k below room h =
      let ih =
        write_all-other (next_u64 want) events before (insert event.seq event.bytes stored) k
          (omega (arith, below, room)) (omega (arith, below, room)) h.3 in
      let look = get-insert event.seq k event.bytes stored in ground (arith, ih, look, h.0)

  pub read_run-written :
      (want pushed : ℕ) (events : List NewEvent) (before stored : Map Bytes)
      → want + length events < 2 ^ 64
      → IsBatch c decode want events before
      → read_run (length events) want none pushed (write_all events stored)
        ≡ Answer.answer (map stored_as events)
  unfolding write_all read_run stored_as
  read_run-written want pushed [] before stored room h = refl
  read_run-written want pushed (event ∷ events) before stored room h =
      let stored' = insert event.seq event.bytes stored in
      let ih =
        read_run-written (next_u64 want) (suc pushed) events before stored' (omega (arith, room))
          h.3 in
      let look = get-insert event.seq want event.bytes stored in
      let kept =
        write_all-other (next_u64 want) events before stored' want (omega (arith, room))
          (omega (arith, room)) h.3 in
      let here : get want (write_all events stored') ≡ some event.bytes =
        ground (arith, kept, look, h.0) in
      let put =
        read_run-put (length events) want pushed event.bytes (write_all events stored')
          (map stored_as events) here ih in
      put
      ∙ ap (λ n. Answer.answer ((record { seq = n; bytes = event.bytes }) ∷ map stored_as events))
          (sym h.0)

  -- What an accepted batch leaves in the files, its head and its events.
  pub write_after-answers :
      (h : Option Head) (now : ℕ) (event : NewEvent) (events : List NewEvent) (files : Files)
      (x : Head) (u : Files)
      → write_after c decode h now event events files ≡ (Answer.answer x, u)
      → IsBatch c decode (next_seq h) (event ∷ events) files.events
        × (u.events ≡ write_all (event ∷ events) files.events)
        × (x.seq ≡ (last_of event events).seq)
  unfolding write_after
  write_after-answers h now event events files x u e =
      let (_, t, s, e') =
        bind-answers (check_batch c decode (next_seq h) (event ∷ events) files.events, files) _ x u
          e in
      let passed : check_batch c decode (next_seq h) (event ∷ events) files.events
          ≡ Answer.answer tt =
        cc in
      (check_batch-IsBatch c decode (next_seq h) (event ∷ events) files.events passed, cc, cc)

  -- The last event of a batch stands where the batch ends.
  pub last_of-seq :
      (want : ℕ) (event : NewEvent) (events : List NewEvent) (before : Map Bytes)
      → want + suc (length events) < 2 ^ 64
      → IsBatch c decode want (event ∷ events) before
      → (last_of event events).seq ≡ want + length events
  unfolding last_of
  last_of-seq want event [] before room h = omega (arith, h.0)
  last_of-seq want event (event' ∷ events) before room h =
      let ih = last_of-seq (next_u64 want) event' events before (omega (arith, room)) h.3 in
      omega (arith, ih, room)
