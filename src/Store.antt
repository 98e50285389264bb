-- ===== src/Store.antt =====
-- crates/remotedeck-core/src/store.rs: the repository of hosts, tunnels, command presets and settings.
pub mod Validate
pub mod Proxies
pub mod Apply
pub mod Settings
pub mod Persisted
pub mod Repository
pub mod Import
pub mod Inversion
pub mod Clash
pub mod Consistent
pub mod Steps
pub mod Deletion
pub mod Blocking
pub mod Ranges
pub mod Lookup
pub mod Jumps
pub mod Frozen
pub mod Duplicates
pub mod Tests
pub mod SaveTests
pub mod ImportTests
