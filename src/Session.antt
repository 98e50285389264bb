-- ===== src/Session.antt =====
-- crates/remotedeck-core/src/session.rs: terminals, their input leases and their event streams.
pub mod Types
pub mod Input
pub mod Stream
pub mod Handshake
pub mod Registry
pub mod Lifecycle
pub mod Ending
pub mod Transport
pub mod Steps
pub mod Orderly
pub mod Races
mod Tests
pub mod Spawn
pub mod Starts
