-- ===== src/Jobs.antt =====
-- crates/remotedeck-core/src/command_job.rs: requests to run a command, their confirmation, and the
-- registry of background jobs.
pub mod Types
pub mod Quote
pub mod Checks
pub mod Request
pub mod Prepare
pub mod Confirmed
pub mod Registry
pub mod Work
pub mod Run
pub mod Started
pub mod Execute
pub mod Ends
pub mod Conclude
pub mod Task
pub mod Output
pub mod Steps
pub mod Bounds
pub mod Graph
mod Tests
