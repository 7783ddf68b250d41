-- ===== src/Validate.antt =====
-- The wire validator of crates/mabel-core/src/validate.rs.
pub mod Error
pub mod Text
pub mod Descriptor
pub mod Values
pub mod Scan
pub mod Schema
pub mod Cardinality
pub mod Message
pub mod Varint
pub mod Gives
pub mod Canonical
pub mod Conforms
pub mod Settles
pub mod Termination
pub mod Sizes
pub mod Checks
pub mod Ends
