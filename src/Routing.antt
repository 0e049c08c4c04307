-- ===== src/Routing.antt =====
-- crates/acp-web-frontend/src/routing.rs: the addresses of the browser's pages.
pub mod Utf8
pub mod Percent
pub mod Routes
mod Characters
mod RoundTrip
mod Addresses
mod Examples
