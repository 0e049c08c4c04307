-- ===== src/Session.antt =====
-- crates/acp-web-backend/src/sessions/handle.rs: one chat session behind its lock.
pub mod Types
pub mod Channels
pub mod Title
pub mod Events
pub mod Prompts
pub mod Turns
pub mod Lifecycle
pub mod Calls
pub mod Frame
pub mod Numbers
pub mod Sequence
pub mod Answers
pub mod Settles
pub mod Cancel
pub mod Stable
pub mod History
pub mod Closed
pub mod Releases
pub mod Delivery
pub mod Queue
pub mod InOrder
mod Examples
