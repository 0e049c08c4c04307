-- ===== src/Slash.antt =====
-- crates/acp-contracts-slash/src/lib.rs and crates/acp-web-backend/src/completions.rs: the slash
-- commands of the chat, and the completions that the server offers while one is typed.
pub mod Types
pub mod Parse
pub mod Resolve
pub mod Browser
pub mod Agreement
mod Examples
