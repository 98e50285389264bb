-- ===== src/Risk.antt =====
-- crates/remotedeck-core/src/risk.rs: the risk policy for commands, a pure function of the command's
-- text, the declared risk and the confirmation text.
pub mod Words
pub mod Programs
pub mod Findings
pub mod ReadOnly
pub mod Analysis
pub mod Presets
mod Tests
