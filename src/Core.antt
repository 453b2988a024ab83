-- ===== src/Core.antt =====
-- rust/crates/zk-oms-rs/src/oms_core_v2.rs: the order manager's core, which composes the stores of
-- orders, reservations, positions and balances, and turns each message into a new state and a
-- list of actions for the service around it.
pub mod Types
pub mod Requests
pub mod Placing
pub mod Failures
pub mod Reports
pub mod Settle
pub mod Incoming
pub mod Messages
pub mod Start
pub mod Recovery
pub mod Edits
pub mod Sound
pub mod PlacingKeeps
pub mod ReportKeeps
pub mod FailureKeeps
pub mod Reachable
pub mod Accepts
pub mod Refusals
pub mod Undo
pub mod Cancels
pub mod Ended
pub mod EndedPlacing
pub mod EndedEntries
pub mod EndedKeeps
pub mod Leaks
pub mod PanicKeeps
pub mod Panic
mod Examples
mod Restart
