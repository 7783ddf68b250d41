-- ===== src/Tests/Stored.antt =====
-- The ledger store of crates/mabel-node/src/ledger.rs on two stored events and a batch of two more.
use mabel.Base.{
  ◌<◌, ◌==◌, Bool-cases, inl, inr, ℕ, Option, none, some, List, [], ◌∷◌, ◌++◌, map, ◌≡◌, ◌≤◌, ◌⊎◌,
  refl, arith,
}
use mabel.Base.Bytes.{Bytes, length}
use mabel.Base.Map.{Map, get, insert}
use mabel.Crypto.{event_id, event_id_domain, hash}
use mabel.Node.Ledger.{
  Head, NewEvent, StoredEvent, Answer, JsonFile, Files, ◌>>=◌, read_json, sequences,
  contiguous_from, contiguous_last, read_event, cached_head, holds_other_bytes, push, read_while,
  event_id_of, write_head,
}
use mabel.Node.Ledger.Append.{
  next_seq, last_of, write_all, read_up_to, interrupted, rebuild_from, rebuild_at, rebuild_head,
  cached_or, head, read_from, read_all, check_event, check_batch, write_after, write_events, append,
}
use mabel.Node.Ledger.Reads.{stored_as}
use mabel.Node.Ledger.Keeps.{append-keeps}
use mabel.Node.Ledger.RoundTrip.{read_all-append}
use mabel.Node.Ledger.Recovery.{append-recovers}
use mabel.Node.Ledger.Rebuild.{IsRun, rebuild_head-IsRun}
use mabel.Node.Ledger.Page.{IsPage, read_from-IsPage}
use mabel.Tests.Fixture.{toy}

-- A file of one byte is an event with that body.
abbrev decode_one : Bytes → Option Bytes
decode_one [] = none
decode_one (b ∷ bs) = some (b ∷ bs)

abbrev stored : Map Bytes
stored = (0, 5 ∷ []) ∷ (1, 6 ∷ []) ∷ []

abbrev top : Head
top = record { seq = 1; event_id = 6; updated_ms = 100 }

abbrev files : Files
files = record {
  events = stored;
  head_file = JsonFile.parsed top;
  meta_file = JsonFile.absent;
  forks = [];
}

abbrev headless : Files
headless = record files { head_file = JsonFile.absent }

abbrev third : NewEvent
third = record { seq = 2; event_id = 7; bytes = 7 ∷ [] }

abbrev fourth : NewEvent
fourth = record { seq = 3; event_id = 8; bytes = 8 ∷ [] }

abbrev old : List StoredEvent
old = (record { seq = 0; bytes = 5 ∷ [] }) ∷ (record { seq = 1; bytes = 6 ∷ [] }) ∷ []

abbrev head_of : (seq id now : ℕ) → Head
head_of seq id now = record { seq = seq; event_id = id; updated_ms = now }

abbrev longer : Files
longer = record files {
  events = (0, 5 ∷ []) ∷ (1, 6 ∷ []) ∷ (2, 7 ∷ []) ∷ (3, 8 ∷ []) ∷ [];
  head_file = JsonFile.parsed (head_of 3 8 21);
}

old_read : read_all toy decode_one 10 files ≡ (Answer.answer old, files)
unfolding read_all read_from head cached_head read_json cached_or ◌>>=◌ read_up_to read_while
    read_event push get
old_read = refl

accepted :
    append toy decode_one 20 21 (third ∷ fourth ∷ []) files
    ≡ (Answer.answer (some (head_of 3 8 21)), longer)
unfolding append write_events write_after head cached_head read_json cached_or ◌>>=◌ next_seq
    check_batch check_event event_id_of event_id event_id_domain hash holds_other_bytes get
    write_all insert last_of write_head
accepted = refl

second_held : get 1 stored ≡ some (6 ∷ [])
unfolding get
second_held = refl

append-keeps_example :
    get 1 (append toy decode_one 20 21 (third ∷ fourth ∷ []) files).1.events ≡ some (6 ∷ [])
append-keeps_example =
    append-keeps toy decode_one 20 21 (third ∷ fourth ∷ []) files 1 (6 ∷ []) second_held

read_all-append_example :
    read_all toy decode_one 30 longer
    ≡ (Answer.answer (old ++ map stored_as (third ∷ fourth ∷ [])), longer)
read_all-append_example =
    read_all-append toy decode_one 10 20 21 30 third (fourth ∷ []) files files longer old
      (some (head_of 3 8 21)) (omega arith) old_read accepted

append-recovers_example :
    (read_all toy decode_one 31 (interrupted 1 (third ∷ fourth ∷ []) files)
      ≡ (Answer.answer old, interrupted 1 (third ∷ fourth ∷ []) files))
    × ((x : Option Head) × (u : Files) × (append toy decode_one 32 33
            (third ∷ fourth ∷ [])
            (interrupted 1 (third ∷ fourth ∷ []) files)
          ≡ (Answer.answer x, u))
        × (read_all toy decode_one 34 u
            ≡ (Answer.answer (old ++ map stored_as (third ∷ fourth ∷ [])), u)))
append-recovers_example =
    append-recovers toy decode_one 1 10 20 21 31 32 33 34 third (fourth ∷ []) files files longer old
      top (some (head_of 3 8 21)) (omega arith) refl old_read accepted

rebuilt :
    rebuild_head toy decode_one 40 headless
    ≡ (Answer.answer (some (head_of 1 6 40)), write_head (head_of 1 6 40) headless)
unfolding rebuild_head contiguous_last contiguous_from sequences rebuild_at rebuild_from read_event
    get event_id_of event_id event_id_domain hash ◌>>=◌ write_head
rebuilt = refl

rebuild_head-IsRun_example :
    ((some (head_of 1 6 40) ≡ none)
      × (write_head (head_of 1 6 40) headless ≡ headless)
      × (get 0 stored ≡ none))
    ⊎ ((h : Head) × (bytes : Bytes) × (some (head_of 1 6 40) ≡ some h)
        × (write_head (head_of 1 6 40) headless ≡ write_head h headless)
        × IsRun 0 h.seq stored
        × (get h.seq stored ≡ some bytes)
        × (event_id_of toy decode_one h.seq bytes ≡ Answer.answer h.event_id))
rebuild_head-IsRun_example =
    rebuild_head-IsRun toy decode_one 40 headless (write_head (head_of 1 6 40) headless)
      (some (head_of 1 6 40)) ((omega arith, tt), (tt, tt)) rebuilt

top_read : head toy decode_one 10 files ≡ (Answer.answer (some top), files)
unfolding head cached_head read_json cached_or ◌>>=◌
top_read = refl

both_held : (k : ℕ) → 0 ≤ k → k < 2 → (b : Bytes) × (get k stored ≡ some b)
unfolding get
both_held k from to = elim (Bool-cases (k == 0)) [
  | inl first ↦ (5 ∷ [], ground (arith, first))
  | inr other ↦ (6 ∷ [], ground (arith, other, to))
]

read_from-IsPage_example :
    (out : List StoredEvent) × (read_from toy decode_one 10 0 (some 1) files
      ≡ (Answer.answer out, files))
    × IsPage 0 out stored
    × (length out ≡ 1)
read_from-IsPage_example =
    read_from-IsPage toy decode_one 10 0 1 files files (some top) top_read (omega arith) both_held
