-- ===== src/Node/Ledger/Append.antt =====
-- `rebuild_head`, `head`, `read_from`, `read_all`, `write_events` and `append` of
-- crates/mabel-node/src/ledger.rs. Each gives its result and the files it leaves.
use mabel.Base.{ℕ, not, Option, none, some, List, [], ◌∷◌, ◌==◌, if◌then◌else◌}
use mabel.Base.Bytes.{Bytes, take}
use mabel.Base.Map.{Map, insert}
use mabel.Crypto.{Crypto}
use mabel.Node.Ledger.{
  Head, NewEvent, StoredEvent, StorageError, Answer, Files, Step, ◌>>=◌, next_u64, sequences,
  contiguous_last, read_event, cached_head, holds_other_bytes, passes, read_while, event_id_of,
  write_head,
}

-- `expected`: `self.head()?.map_or(0, |head| head.seq + 1)`.
unfoldable pub next_seq : Option Head → ℕ
next_seq none = 0
next_seq (some head) = next_u64 head.seq

unfoldable pub last_of : NewEvent → List NewEvent → NewEvent
last_of event [] = event
last_of event (event' ∷ events) = last_of event' events

unfoldable pub write_all : List NewEvent → Map Bytes → Map Bytes
write_all [] stored = stored
write_all (event ∷ events) stored = write_all events (insert event.seq event.bytes stored)

-- `read_from` once the head is known.
unfoldable pub read_up_to :
    Option Head → (since : ℕ) → Option ℕ → Map Bytes → Answer (List StoredEvent)
unfolding read_while
read_up_to none since limit events = Answer.answer []
read_up_to (some h) since limit events = read_while (passes h.seq since) h.seq since limit 0 events

-- The files where `append` stopped after `n` writes of the batch: no head is written yet.
unfoldable pub interrupted : (n : ℕ) → List NewEvent → Files → Files
unfolding take write_all
interrupted n events files = record files { events = write_all (take n events) files.events }

module _ (c : Crypto) (decode : Bytes → Option Bytes) where
  -- `rebuild_head` once the bytes of the run's last event are read.
  unfoldable pub rebuild_from : (now last : ℕ) → Bytes → Files → Step (Option Head)
  unfolding event_id_of write_head ◌>>=◌
  rebuild_from now last bytes files = do
    (id, files) ← (event_id_of c decode last bytes, files)
    let head : Head = (record { seq = last; event_id = id; updated_ms = now })
    (Answer.answer (some head), write_head head files)

  -- `rebuild_head` once the last sequence of the run is known.
  unfoldable pub rebuild_at : (now : ℕ) → Option ℕ → Files → Step (Option Head)
  unfolding read_event rebuild_from ◌>>=◌
  rebuild_at now none files = (Answer.answer none, files)
  rebuild_at now (some last) files = do
    (bytes, files) ← (read_event last files.events, files)
    rebuild_from now last bytes files

  unfoldable pub rebuild_head : (now : ℕ) → Files → Step (Option Head)
  unfolding contiguous_last sequences rebuild_at
  rebuild_head now files = rebuild_at now (contiguous_last (sequences files.events)) files

  -- The head in the cache, or else the head rebuilt.
  unfoldable pub cached_or : (now : ℕ) → Option Head → Files → Step (Option Head)
  unfolding rebuild_head
  cached_or now (some h) files = (Answer.answer (some h), files)
  cached_or now none files = rebuild_head now files

  unfoldable pub head : (now : ℕ) → Files → Step (Option Head)
  unfolding cached_head cached_or ◌>>=◌
  head now files = do (cached, files) ← (cached_head files, files); cached_or now cached files

  unfoldable pub read_from : (now since : ℕ) → Option ℕ → Files → Step (List StoredEvent)
  unfolding head read_up_to ◌>>=◌
  read_from now since limit files = do
    (h, files) ← head now files
    (read_up_to h since limit files.events, files)

  unfoldable pub read_all : (now : ℕ) → Files → Step (List StoredEvent)
  unfolding read_from
  read_all now files = read_from now 0 none files

  -- The checks of `write_events` on one event, where the next sequence is `want`.
  unfoldable pub check_event : (want : ℕ) → NewEvent → Map Bytes → Answer Unit
  unfolding event_id_of holds_other_bytes
  check_event want event stored =
      if not (event.seq == want)
      then Answer.refused (StorageError.out_of_order_append want event.seq)
      else elim (event_id_of c decode event.seq event.bytes) [
        | Answer.refused error ↦ Answer.refused error
        | Answer.endless ↦ Answer.endless
        | Answer.answer actual ↦
            if not (actual == event.event_id)
            then Answer.refused (StorageError.event_id_mismatch event.seq event.event_id actual)
            else if holds_other_bytes event.seq event.bytes stored
            then Answer.refused (StorageError.conflicting_event event.seq event.event_id)
            else Answer.answer tt
      ]

  unfoldable pub check_batch : (want : ℕ) → List NewEvent → Map Bytes → Answer Unit
  unfolding check_event
  check_batch want [] stored = Answer.answer tt
  check_batch want (event ∷ events) stored =
      let rest = check_batch (next_u64 want) events stored in
      elim (check_event want event stored) [
        | Answer.refused error ↦ Answer.refused error
        | Answer.endless ↦ Answer.endless
        | Answer.answer _ ↦ rest
      ]

  -- `write_events` once the head is known: the checks of every event, then the writes.
  unfoldable pub write_after :
      Option Head → (now : ℕ) → NewEvent → List NewEvent → Files → Step Head
  unfolding next_seq check_batch write_all last_of ◌>>=◌
  write_after h now event events files = do
    (_, files) ← (check_batch (next_seq h) (event ∷ events) files.events, files)
    let last = last_of event events
    let head : Head = (record { seq = last.seq; event_id = last.event_id; updated_ms = now })
    (Answer.answer head, record files { events = write_all (event ∷ events) files.events })

  -- The batch is `event ∷ events`. `rebuilt` and `now` are the two readings of the clock.
  unfoldable pub write_events : (rebuilt now : ℕ) → NewEvent → List NewEvent → Files → Step Head
  unfolding head write_after ◌>>=◌
  write_events rebuilt now event events files = do
    (h, files) ← head rebuilt files
    write_after h now event events files

  unfoldable pub append : (rebuilt now : ℕ) → List NewEvent → Files → Step (Option Head)
  unfolding head write_events write_head ◌>>=◌
  append rebuilt now [] files = head rebuilt files
  append rebuilt now (event ∷ events) files = do
    (h, files) ← write_events rebuilt now event events files
    (Answer.answer (some h), write_head h files)
