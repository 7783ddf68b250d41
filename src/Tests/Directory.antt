-- ===== src/Tests/Directory.antt =====
-- The dial budget, the peers, the bindings, the crawl and the verification cache of
-- crates/mabel-node at concrete inputs.
use mabel.Base.{
  if◌then◌else◌, ◌==◌, none, ℕ, ◌<◌, ◌≤◌, true, some, List, [], ◌∷◌, ◌≡◌, refl, arith, Option,
  false,
}
use mabel.Base.Bytes.{length}
use mabel.Base.Map.{get, insert}
use mabel.Node.Budget.{
  SourceClass, fresh, cap, reserved, rank, spent_by, dialled, ceiling, charge, admit_dial, admit,
}
use mabel.Node.Budget.Bounds.{IsWithin}
use mabel.Node.Budget.Mentions.{admit_all, admit_all-Bounds, admit_all-reserves, admit_all-once}
use mabel.Node.Peers.{Peers, served, hints_at, prune}
use mabel.Node.Peers.Tidy.{IsTidyPeers}
use mabel.Node.Peers.Pruned.{hints_at-prune}
use mabel.Node.Peers.Runs.{Call, after, after-IsTidyPeers}
use mabel.Node.Bindings.{
  Binding, Bindings, Observation, names, binding, others, vouched, entry, replaced_by,
  replaced_if_any, apply, store, record_in,
}
use mabel.Node.Bindings.History.{SomeVouches, IsUniform}
use mabel.Node.Bindings.Verified.{file_after, binding-SomeVouches, file_after-OneHead}
use mabel.Validate.Cardinality.{bytes_eq}
use mabel.Node.Crawl.{Options, Edge, FetchOutcome, crawl}
use mabel.Node.Crawl.Entries.{All}
use mabel.Node.Crawl.Near.{IsNear, crawl-IsNear}
use mabel.Node.Verification.{
  VerificationStatus, VerificationEntry, is_verified, is_unreachable, is_decisive,
  eq_ignore_ascii_case, covers, first, merge_into, merge,
}
use mabel.Node.Verification.Earned.{Check, entry_after, IsEarned, entry_after-IsEarned}

abbrev mentions : List (SourceClass × ℕ)
mentions = (SourceClass.caller_hint, 5) ∷ (SourceClass.dns, 5) ∷ (SourceClass.chain_named, 7) ∷ []

admit_all-Bounds_example : IsWithin (admit_all mentions fresh)
admit_all-Bounds_example = admit_all-Bounds mentions

few_spent : spent_by SourceClass.node_witness (admit_all mentions fresh) < 4
unfolding spent_by admit_all admit admit_dial ceiling reserved cap charge rank get insert dialled
few_spent = omega arith

admit_all-reserves_example : (admit SourceClass.node_witness 9 (admit_all mentions fresh)).0 ≡ true
admit_all-reserves_example = admit_all-reserves mentions 9 few_spent

may_dial : (admit SourceClass.peer_hint 3 (admit_all mentions fresh)).0 ≡ true
unfolding spent_by admit_all admit admit_dial ceiling reserved cap charge rank get insert dialled
may_dial = refl

admit_all-once_example :
    admit SourceClass.dns 3 (
      admit_all
        ((SourceClass.node_witness, 8) ∷ [])
        (admit SourceClass.peer_hint 3 (admit_all mentions fresh)).1)
    ≡ (
      true,
      admit_all
          ((SourceClass.node_witness, 8) ∷ [])
          (admit SourceClass.peer_hint 3 (admit_all mentions fresh)).1,
    )
admit_all-once_example =
    admit_all-once mentions ((SourceClass.node_witness, 8) ∷ []) SourceClass.peer_hint
      SourceClass.dns 3 (λ e. cc) may_dial

abbrev calls : List Call
calls = Call.pruned 4000 ∷ Call.failure 1 6 ∷ Call.success 1 6 3000 ∷ Call.success 1 5 2000 ∷ []

after-IsTidyPeers_example : IsTidyPeers (after calls)
after-IsTidyPeers_example = after-IsTidyPeers calls

abbrev stored_peers : Peers
stored_peers = (1, served 5 2000 ∷ served 6 3000 ∷ []) ∷ (2, served 5 1 ∷ []) ∷ []

hints_at-prune_example :
    hints_at 1 2592004000 (prune 2592003500 stored_peers) ≡ hints_at 1 2592004000 stored_peers
hints_at-prune_example =
    hints_at-prune 1 2592003500 2592004000 stored_peers ((omega arith, tt), (tt, tt)) (omega arith)

-- The identity's chain names 5 and 6, and 6 served it.
abbrev seen : Observation
seen = record {
  identity = 1;
  head_seq = 3;
  head_event = 30;
  endpoints = 5 ∷ 6 ∷ [];
  source = 6;
  observed_ms = 1000;
  may_bind = true;
}

abbrev left : Bindings
left = record {
  identity = 1;
  endpoints =
      (record { endpoint = 5; head_seq = 3; head_event = 30; source = 6; observed_ms = 1000 }) ∷ [];
}

seen_once : file_after (seen ∷ []) ≡ some left
unfolding file_after record_in apply store replaced_if_any replaced_by vouched others entry
seen_once = refl

bound_five : binding 5 left ≡ Binding.verified
unfolding binding names
bound_five = refl

binding-SomeVouches_example : SomeVouches 5 (seen ∷ [])
binding-SomeVouches_example = binding-SomeVouches (seen ∷ []) left 5 seen_once bound_five

file_after-OneHead_example : (seq : ℕ) × (event : ℕ) × IsUniform seq event left.endpoints
file_after-OneHead_example = file_after-OneHead (seen ∷ []) left seen_once

-- Ledger 1 names 2 and 3, and 2 names 4.
abbrev edges_of : ℕ → Option (List Edge)
edges_of n =
    if n == 1
    then some (
        (record { subject = 2; attestation_event = 20 })
        ∷ (record { subject = 3; attestation_event = 30 })
        ∷ [])
    else if n == 2
    then some ((record { subject = 4; attestation_event = 40 }) ∷ [])
    else none

abbrev toy_fetch : ℕ → List ℕ → FetchOutcome
toy_fetch ledger learned = record { ledger = ledger; source = some 7; trust = edges_of ledger }

abbrev small : Options
small = record { depth = 2; max_nodes = 3; max_fetches = 9; in_flight = 2 }

crawl-IsNear_example :
    (length (crawl toy_fetch (λ n. false) small (1 ∷ [])).outcomes ≤ 3)
    × ((crawl toy_fetch (λ n. false) small (1 ∷ [])).fetch_count ≤ 9)
    × All (IsNear toy_fetch small (1 ∷ [])) (crawl toy_fetch (λ n. false) small (1 ∷ [])).outcomes
crawl-IsNear_example = crawl-IsNear toy_fetch (λ n. false) small (1 ∷ []) (λ asked learned. refl)

-- The host `a` verifies at 10 and is then not reached.
abbrev checks : List Check
checks =
    (record {
      outcome = record { hostname = 65 ∷ []; status = VerificationStatus.unreachable; detail = [] };
      ran_ms = 20;
    })
    ∷ (record {
      outcome = record { hostname = 97 ∷ []; status = VerificationStatus.verified; detail = [] };
      ran_ms = 10;
    })
    ∷ []

abbrev kept_entry : VerificationEntry
kept_entry = record {
  hostname = 97 ∷ [];
  status = VerificationStatus.verified;
  checked_at_ms = 10;
  last_verified_at_ms = some 10;
  detail = [];
  failed = some (record { checked_at_ms = 20; detail = [] });
}

kept : entry_after checks ≡ some kept_entry
unfolding entry_after merge covers eq_ignore_ascii_case bytes_eq first merge_into is_verified
    is_unreachable is_decisive
kept = refl

entry_after-IsEarned_example : IsEarned checks kept_entry
entry_after-IsEarned_example = entry_after-IsEarned checks kept_entry kept
