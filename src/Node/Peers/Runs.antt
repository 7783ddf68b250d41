-- ===== src/Node/Peers/Runs.antt =====
-- `Peers` of crates/mabel-node/src/peers.rs over any sequence of its operations.
use mabel.Base.{ℕ, List, [], ◌∷◌}
use mabel.Base.Map.{get}
use mabel.Node.Peers.{Peers, record_success, record_failure, prune}
use mabel.Node.Peers.Tidy.{IsTidyPeers, record_success-IsTidyPeers, record_failure-IsTidyPeers}
use mabel.Node.Peers.Pruned.{prune-IsTidyPeers}

-- A call that changes the peers.
pub data Call : Type 0 where
  success : (ledger endpoint now : ℕ) → Call
  failure : (ledger endpoint : ℕ) → Call
  pruned : (now : ℕ) → Call

unfoldable pub run_call : Call → Peers → Peers
unfolding record_success record_failure prune
run_call (Call.success ledger endpoint now) peers = record_success ledger endpoint now peers
run_call (Call.failure ledger endpoint) peers = (record_failure ledger endpoint peers).1
run_call (Call.pruned now) peers = prune now peers

-- The peers after a list of calls, the newest first, from an empty file.
unfoldable pub after : List Call → Peers
unfolding run_call
after [] = []
after (call ∷ earlier) = run_call call (after earlier)

run_call-IsTidyPeers :
    (call : Call) (peers : Peers) → IsTidyPeers peers → IsTidyPeers (run_call call peers)
unfolding run_call
run_call-IsTidyPeers (Call.success ledger endpoint now) peers h =
    record_success-IsTidyPeers ledger endpoint now peers h
run_call-IsTidyPeers (Call.failure ledger endpoint) peers h =
    record_failure-IsTidyPeers ledger endpoint peers h
run_call-IsTidyPeers (Call.pruned now) peers h = prune-IsTidyPeers now peers h

-- After any successes, failures and prunings, whatever the clock read, each ledger that the file
-- lists has at least one hint and at most eight, and no two of them name one endpoint.
pub after-IsTidyPeers : (calls : List Call) → IsTidyPeers (after calls)
unfolding after get
after-IsTidyPeers [] = record { ordered = tt; tidy = λ ledger hints e. absurd cc }
after-IsTidyPeers (call ∷ earlier) =
    run_call-IsTidyPeers call (after earlier) (after-IsTidyPeers earlier)
