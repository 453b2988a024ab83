-- ===== src/Orders.antt =====
-- The order manager's order store: rust/crates/zk-oms-rs/src/order_store_v2.rs, with the order
-- types of models_v2.rs. `Types` has the records, `Report` the static functions that apply a
-- report to one order, `Store` the store and its operations; the other children prove.
pub mod Types
pub mod Report
pub mod Status
pub mod Fills
pub mod Store
pub mod Closing
pub mod Invariant
pub mod Eviction
pub mod Keeps
pub mod Lifecycle
pub mod Entries
mod Examples
