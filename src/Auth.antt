-- ===== src/Auth.antt =====
-- crates/acp-web-backend/src/auth.rs: who sends a request.
pub mod Requests
mod Decisions
mod Examples
