-- ===== src/Tui.antt =====
-- crates/acp-cli/src/tui/app.rs: the state of the terminal chat. A string is a list of code points,
-- and the cursor a byte offset into its UTF-8 form.
pub mod Utf8
pub mod Types
pub mod Editing
pub mod History
pub mod Transcript
pub mod Scroll
pub mod Updates
pub mod Boundary
pub mod Actions
pub mod WellFormed
pub mod EditingSafety
pub mod Safety
pub mod Runs
pub mod Input
pub mod Commands
mod Quitting
mod AnswerSafety
mod InputSafety
mod Examples
