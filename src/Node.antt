-- ===== src/Node.antt =====
-- The node: crates/mabel-node, one module for each of its parts.
pub mod Ledger
pub mod Budget
pub mod Peers
pub mod Bindings
pub mod Crawl
pub mod Verification
pub mod Resolve
pub mod Distances
