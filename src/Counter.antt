-- ===== src/Counter.antt =====
-- The counter pallet (pallets/custom-pallet/src/custom.rs), a file that the crate's `lib.rs` does
-- not name as a module.
pub mod Types
pub mod Calls
pub mod Outcome
pub mod Runs
pub mod Events
mod Witnesses
