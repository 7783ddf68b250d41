-- ===== src/Fold.antt =====
-- The ledger of crates/mabel-core/src/fold.rs: its state and its checks, `apply` and `fold`.
pub mod Reason
pub mod State
pub mod Effect
pub mod Checks
pub mod Apply
pub mod Rules
pub mod Accepted
pub mod Controllers
pub mod Principals
pub mod Invitations
pub mod Trust
pub mod Shape
pub mod Sound
pub mod Changes
pub mod Invariant
pub mod Runs
pub mod Steps
pub mod TrustHistory
pub mod InvitationHistory
pub mod Membership
pub mod Authority
pub mod Wire
pub mod Consent
