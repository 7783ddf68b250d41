-- ===== src/Lib.antt =====
-- The core of mabel, crates/mabel-core: signed append-only ledgers of identities.
--
-- The program. A ledger is a sequence of signed events. An event arrives as bytes: `validate.rs` reads
-- them under a field table, then `fold.rs` decodes them and folds
-- them into a state, event by event, and stops at the first event that breaks a rule. `fork.rs` takes a
-- prefix and two events and says whether they prove a fork. `digest.rs` and `id.rs` give the ids and
-- the bytes that are hashed and signed. The crates mabel-net, mabel-node and mabel-cli move, store and
-- show ledgers, and call these functions to judge them.
--
-- The files.
--   Base: the numbers, tests, byte strings and ordered maps that the components share. A BTreeMap is
--     an association list in ascending order of its keys.
--   Proto: the messages of proto/mabel/v0/ledger.proto as prost decodes them.
--   Crypto: crates/mabel-core/src/digest.rs, `from_slice` of id.rs and the constants of lib.rs. An id,
--     a digest or a key is 32 bytes in the source, and here the number that the bytes spell with the
--     first byte the most significant: the comparison of the source compares these numbers.
--   Validate: crates/mabel-core/src/validate.rs. Error is `WireError` and the result of a validator
--     step; Text the string rules; Descriptor and Schema the tables; Values `read_varint`,
--     `check_varint` and `check_bytes`; Scan `scan` and the readers of `Scanned`; Cardinality
--     `check_cardinality`; Message the cross-field rules, `validate` and the entry points. Varint
--     and Canonical compare the reader with an encoder, and Conforms the entries with the table, by the
--     rules of Gives. Settles, Termination, Sizes, Checks and Ends follow the validator to its end.
--   Fold: crates/mabel-core/src/fold.rs. Reason is `Reason`, `Violation` and the outcome of a step, with
--     a value for a panic; State the `LedgerState` and its questions; Effect `Effect` and `commit`;
--     Checks the checks of a payload; Apply `apply` and `fold`. Rules, Accepted, Shape and Controllers
--     say what the checks let through; Principals, Invitations, Trust, Sound, Changes and Invariant are
--     the invariant; Runs the fold as a relation; Steps, TrustHistory, InvitationHistory, Membership,
--     Authority and Consent what one accepted event may change, who may make it and what an acceptance
--     answers; Wire puts the gate of Validate in
--     front of the fold.
--   Fork: crates/mabel-core/src/fork.rs, and in Fork/Evidence what a fork record proves.
--   Node/Ledger: `LedgerStore` of crates/mabel-node/src/ledger.rs. The parent has the records and the
--     small reads, Append the operations that go through the head; Steps are the rules for chains of
--     them; Reads and Loop the reading loop; Heads, Writes, Keeps, Journal, RoundTrip, Rebuild and Page
--     follow a batch to disk and back, Crash and Recovery an append that is cut off.
--   Node/Budget: `DialBudget` of crates/mabel-node/src/graph/resolve.rs, with its bounds and its
--     mentions.
--   Node/Resolve: `Resolution` of the same file: entering and leaving a resolution under its lock, and what
--     it gathers.
--   Node/Peers: crates/mabel-node/src/peers.rs. Hints is one ledger's list, Tidy and Pruned the
--     operations on the file, Runs any sequence of them.
--   Node/Bindings: crates/mabel-node/src/bindings.rs, with the history that a record stands on.
--   Node/Crawl: `crawl_with` of crates/mabel-node/src/graph/crawl.rs up to the documents that it renders.
--     Bounds and Capped are its caps, Entries and Near the trust edges that it follows.
--   Node/Distances: `distances` of the same file.
--   Node/Verification: crates/mabel-node/src/verification/cache.rs.
--   Tests: toy primitives, a table of events, and the theorems at concrete inputs.
--
-- How the parts meet. A ledger's events reach the fold through the validator; the store of the node keeps
-- their bytes and looks into none but to read an id; a fork record is two events of the fold that the store
-- keeps apart. The crawl reads ledgers under the dial budget, and the peers, the bindings and the
-- verification cache are what the node remembers of where it found them.
--
-- State. `apply` of the source changes its receiver only in `commit`, after the last check. Here it takes
-- a state and returns an outcome: the new state, the reason of the refusal, or a panic where the source
-- calls `expect`. A refusal returns no state, so the old one stands.
--
-- Parameters. `Crypto` is a record of what the crates blake3, iroh_base and data_encoding provide; no law
-- of it is assumed. `Decoders` is the record of the decoders that prost generates, and `Gate` of what
-- `apply` calls first: `wire_gate` makes one of `validate::signed_event` and the decoders. No law of a gate
-- is assumed either, so what is said of the fold holds for every gate, that one included. A panic of an
-- `expect` after the gate is a value, and no theorem says that it does not happen.
--
-- The decoder of `SignedEvent` in the store, the fetcher of the crawl and every reading of a clock are
-- arguments, and nothing is assumed of them, but where a result says that the fetcher answers for the
-- ledger that it was asked for, as its documentation has it.
--
-- Fuel. `validate` calls itself on a slice of its input, so it runs on one more than the length of the
-- input; the loop of `scan` takes at least one byte in a round, so it runs on the length of the input. The
-- value `spent` marks the end of the fuel. `fold` is recursion on the events.
--
-- Numbers are natural numbers. A varint is read below 2^64 by the overflow rules of `read_varint`, a
-- position is a head's position and one, and a timestamp is bounded by the field table.
--
-- Files. A file of the node is a value: an event file is its bytes, a JSON file is absent, malformed or the
-- value that it spells. Writes are whole, since the source renames a finished file into place, and a process may
-- die between two of them. Failures of the file system are left out. A `u64` position wraps at 2^64 where
-- the store counts on. The loop of `read_from` goes from `since` to the head, and where the head is at
-- u64::MAX its position wraps and starts again from 0: `passes` is one pass for each position of both
-- rounds, and a loop that would go on behind them has the value `endless`. The levels of the crawl are
-- one more than the bounded depth.
-- The loop that trims a ledger's hints runs on one pass for each hint, and the search of `distances` on one
-- round for each node and one more.
--
-- Not modelled: the links of link.rs, the builders of sign.rs, the artifacts of artifacts.rs, rendering
-- and serde, the crates mabel-net, mabel-cli and mabel-proto, and of mabel-node the wallet, the HTTP
-- interface, the settings, the contacts, the resolver, the fetcher and the documents of the graph.
pub mod Base
pub mod Proto
pub mod Crypto
pub mod Validate
pub mod Fold
pub mod Fork
pub mod Node
pub mod Tests
