-- ===== src/Node/Ledger.antt =====
-- The files of one ledger: `LedgerStore` of crates/mabel-node/src/ledger.rs, its reads and its
-- small records. The event files are a map from sequence to bytes, a JSON file is absent, malformed
-- or the value it spells. `now` is what `now_ms()` returned.
pub mod Append
pub mod Steps
pub mod Writes
pub mod Page
pub mod Rebuild
pub mod Recovery
pub mod Crash
pub mod RoundTrip
pub mod Journal
pub mod Reads
pub mod Loop
pub mod Heads
pub mod Keeps
use mabel.Base.{
  ◌||◌, ℕ, zero, suc, ◌+◌, ◌-◌, ◌%◌, ◌^◌, Bool, true, false, not, Option, none, some, List, [], ◌∷◌,
  ◌++◌, map, ◌==◌, leb, if◌then◌else◌,
}
use mabel.Base.Bytes.{Bytes}
use mabel.Base.Map.{Map, get, insert}
use mabel.Crypto.{Crypto, event_id}
use mabel.Validate.Cardinality.{bytes_eq}

pub record Head : Type 0 where
  pub seq : ℕ
  pub event_id : ℕ
  pub updated_ms : ℕ

pub record LedgerMeta : Type 0 where
  pub source_endpoint : Option ℕ
  pub first_seen_ms : ℕ

pub record NewEvent : Type 0 where
  pub seq : ℕ
  pub event_id : ℕ
  pub bytes : Bytes

pub record StoredEvent : Type 0 where
  pub seq : ℕ
  pub bytes : Bytes

pub record ForkFile : Type 0 where
  pub seq : ℕ
  pub conflicting : ℕ

-- The variants of `StorageError` that this store raises itself, less `Io`.
pub data StorageError : Type 0 where
  out_of_order_append : (expected got : ℕ) → StorageError
  event_id_mismatch : (seq claimed actual : ℕ) → StorageError
  conflicting_event : (seq offered : ℕ) → StorageError
  missing_event : (seq : ℕ) → StorageError
  malformed_event : (seq : ℕ) → StorageError
  json : StorageError

pub data Answer (A : Type 0) : Type 0 where
  answer : A → Answer A
  refused : StorageError → Answer A
  -- The loop of `read_from` does not end.
  endless : Answer A

pub data JsonFile (A : Type 0) : Type 0 where
  absent : JsonFile A
  malformed : JsonFile A
  parsed : A → JsonFile A

-- `forks` is keyed by the sequence and then by the conflicting event, the two halves of a name.
pub record Files : Type 0 where
  pub events : Map Bytes
  pub head_file : JsonFile Head
  pub meta_file : JsonFile LedgerMeta
  pub forks : Map (Map Bytes)

-- `seq + 1` on a `u64`.
abbrev pub next_u64 : ℕ → ℕ
next_u64 seq = (seq + 1) % 2 ^ 64

-- What an operation answers, and the files it leaves.
abbrev pub Step : Type 0 → Type 0
Step A = Answer A × Files

module _ {A B : Type 0} where
  -- The operator `?`, which passes the files on.
  infixl 5 ◌>>=◌
  unfoldable pub ◌>>=◌ : Step A → (A × Files → Step B) → Step B
  (Answer.refused error, files) >>= f = (Answer.refused error, files)
  (Answer.endless, files) >>= f = (Answer.endless, files)
  (Answer.answer a, files) >>= f = f (a, files)

-- `fs::read` of a JSON file, then `serde_json::from_slice`.
unfoldable pub read_json : {A : Type 0} → JsonFile A → Answer (Option A)
read_json JsonFile.absent = Answer.answer none
read_json JsonFile.malformed = Answer.refused StorageError.json
read_json (JsonFile.parsed a) = Answer.answer (some a)

unfoldable pub sequences : Map Bytes → List ℕ
sequences [] = []
sequences ((seq, _) ∷ events) = seq ∷ sequences events

-- The loop of `contiguous_last`, at one index with the last sequence it took.
unfoldable pub contiguous_from : ℕ → Option ℕ → List ℕ → Option ℕ
contiguous_from index last [] = last
contiguous_from index last (seq ∷ seqs) =
    let rest = contiguous_from (suc index) (some seq) seqs in if seq == index then rest else last

unfoldable pub contiguous_last : List ℕ → Option ℕ
unfolding contiguous_from
contiguous_last seqs = contiguous_from 0 none seqs

unfoldable pub read_event : ℕ → Map Bytes → Answer Bytes
read_event seq events = elim (get seq events) [
  | none ↦ Answer.refused (StorageError.missing_event seq)
  | some bytes ↦ Answer.answer bytes
]

unfoldable pub cached_head : Files → Answer (Option Head)
unfolding read_json
cached_head files = read_json files.head_file

-- Whether an event file at `seq` holds bytes other than these.
unfoldable pub holds_other_bytes : ℕ → Bytes → Map Bytes → Bool
unfolding bytes_eq
holds_other_bytes seq bytes events = elim (get seq events) [
  | none ↦ false
  | some stored ↦ not (bytes_eq stored bytes)
]

-- `limit.is_some_and(|limit| events.len() >= limit)`.
abbrev pub at_limit : Option ℕ → ℕ → Bool
at_limit none pushed = false
at_limit (some limit) pushed = leb limit pushed

-- `events.push` of an event that `read_event(seq)?` gives, in front of the later passes' events.
unfoldable pub push : ℕ → Answer Bytes → Answer (List StoredEvent) → Answer (List StoredEvent)
push seq (Answer.refused error) rest = Answer.refused error
push seq Answer.endless rest = Answer.endless
push seq (Answer.answer bytes) Answer.endless = Answer.endless
push seq (Answer.answer bytes) (Answer.refused error) = Answer.refused error
push seq (Answer.answer bytes) (Answer.answer events) =
    Answer.answer ((record { seq = seq; bytes = bytes }) ∷ events)

-- The loop `while seq <= head.seq`, on fuel, with `pushed` events read so far. A `seq` that wraps goes
-- on from 0.
unfoldable pub read_while :
    (fuel head_seq seq : ℕ) → Option ℕ → (pushed : ℕ) → Map Bytes → Answer (List StoredEvent)
unfolding read_event push
read_while zero head_seq seq limit pushed events =
    if leb seq head_seq then Answer.endless else Answer.answer []
read_while (suc fuel) head_seq seq limit pushed events =
    let rest = read_while fuel head_seq (next_u64 seq) limit (suc pushed) events in
    if not (leb seq head_seq) || at_limit limit pushed
    then Answer.answer []
    else push seq (read_event seq events) rest

-- The passes of the loop from `since` on. Where `seq` wraps behind the head, every sequence comes once
-- more, and a loop that then goes on is endless.
abbrev pub passes : (head_seq since : ℕ) → ℕ
passes head_seq since = suc head_seq - since + (if leb (2 ^ 64) (suc head_seq) then 2 ^ 64 else 0)

abbrev pub or_empty : Option (Map Bytes) → Map Bytes
or_empty none = []
or_empty (some at) = at

-- The conflicting events recorded at one sequence, then those of the next.
unfoldable pub forks_at : ℕ → Map Bytes → List ForkFile
forks_at seq [] = []
forks_at seq ((conflicting, _) ∷ at) =
    (record { seq = seq; conflicting = conflicting }) ∷ forks_at seq at

unfoldable pub list_forks : Map (Map Bytes) → List ForkFile
unfolding forks_at
list_forks [] = []
list_forks ((seq, at) ∷ forks) = forks_at seq at ++ list_forks forks

unfoldable pub record_fork : (seq conflicting : ℕ) → Bytes → Files → Files
record_fork seq conflicting written files = record files {
  forks = insert seq (insert conflicting written (or_empty (get seq files.forks))) files.forks;
}

unfoldable pub write_meta : LedgerMeta → Files → Files
write_meta meta files = record files { meta_file = JsonFile.parsed meta }

unfoldable pub note_first_seen : (now : ℕ) → Option ℕ → Files → Answer LedgerMeta × Files
unfolding read_json write_meta
note_first_seen now source_endpoint files = elim (read_json files.meta_file) [
  | Answer.refused error ↦ (Answer.refused error, files)
  | Answer.endless ↦ (Answer.endless, files)
  | Answer.answer (some meta) ↦ (Answer.answer meta, files)
  | Answer.answer none ↦
      let meta : LedgerMeta = (record { source_endpoint = source_endpoint; first_seen_ms = now }) in
      (Answer.answer meta, write_meta meta files)
]

unfoldable pub write_head : Head → Files → Files
write_head head files = record files { head_file = JsonFile.parsed head }

module _ (c : Crypto) (decode : Bytes → Option Bytes) where
  -- `SignedEvent::decode`, of which `decode` gives the field `body`, then `event_id`.
  unfoldable pub event_id_of : ℕ → Bytes → Answer ℕ
  unfolding event_id
  event_id_of seq bytes = elim (decode bytes) [
    | none ↦ Answer.refused (StorageError.malformed_event seq)
    | some body ↦ Answer.answer (event_id c body)
  ]
