-- ===== src/Agent.antt =====
-- crates/acp-web-backend/src/agent_runtime.rs and agent_profiles.rs: the processes that run the
-- sessions' agents, and the profiles that say how to start them.
pub mod Config
pub mod Profiles
pub mod Operations
mod Blank
mod Tree
mod Valid
mod Names
mod Runs
mod Keeping
mod Restart
mod Reopening
pub mod Registry
mod Launches
mod NoLeak
mod Cancelled
mod Waking
mod Examples
mod LaunchExamples
