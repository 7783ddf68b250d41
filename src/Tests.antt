-- ===== src/Tests.antt =====
-- Tests and witnesses, on toy primitives and a table in place of the decoders.
pub mod Fixture
pub mod Witnesses
pub mod Wire
pub mod Inception
pub mod Stored
pub mod Directory
pub mod Resolved
