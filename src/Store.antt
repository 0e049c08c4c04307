-- ===== src/Store.antt =====
-- crates/acp-web-backend/src/sessions.rs: the store of sessions. The handles that `Arc` shares are
-- a list that only grows; the map and the turn handles hold addresses in it. Each operation runs
-- from its first to its last access with no other between, which the code has for each lock only.
pub mod Types
pub mod Access
pub mod Recency
pub mod Retention
pub mod Calls
pub mod Sessions
pub mod Prompts
pub mod Requests
pub mod Authorization
pub mod Local
pub mod Isolation
pub mod Count
pub mod Cap
pub mod Deletion
pub mod Owned
pub mod Order
mod Examples
pub mod Pruning
