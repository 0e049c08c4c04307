-- ===== src/View.antt =====
-- The browser's view of one session: crates/acp-web-frontend/src/session_page_actions/stream/events.rs
-- and the modules that it rests on.
pub mod Types
pub mod Events
mod Redelivery
mod Ids
mod Conversation
mod Composer
mod Examples
