-- ===== src/Calls.antt =====
-- src/modules/calls: calls between two users and in groups.
pub mod State
pub mod Logs
pub mod Gateway
pub mod Signals
pub mod Inputs
pub mod Group
pub mod Fallback
pub mod Runs
pub mod Samples
mod Tests
