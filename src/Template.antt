-- ===== src/Template.antt =====
-- The template pallet (pallets/template/src).
pub mod Types
pub mod Calls
pub mod Weights
pub mod Laws
pub mod Charges
pub mod Benchmarks
pub mod Mock
mod Witnesses
