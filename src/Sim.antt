-- ===== src/Sim.antt =====
-- rust/crates/zk-sim-core/src: the exchange simulator. models.rs and match_policy.rs are in Orders
-- and Policy, simulator.rs in Reports and Core.
pub mod Orders
pub mod Policy
pub mod Reports
pub mod Core
pub mod Walk
pub mod Conserves
pub mod Reachable
pub mod Times
mod Examples
