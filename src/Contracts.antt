-- ===== src/Contracts.antt =====
-- The wire contracts that the crates share (crates/acp-contracts-*): one child for each crate.
-- A `DateTime<Utc>` is a number of time units; serialisation attributes are not modelled.
pub mod Messages
pub mod Permissions
pub mod Sessions
pub mod Stream
