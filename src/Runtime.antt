-- ===== src/Runtime.antt =====
-- The runtime (runtime/src): its constants, fees, weights, pallets and genesis.
pub mod Constants
pub mod Weights
pub mod Sane
pub mod Fees
pub mod Payment
pub mod Extrinsics
pub mod Configs
pub mod Sessions
pub mod Version
pub mod Benchmarks
pub mod Limits
pub mod Pallets
pub mod Genesis
pub mod Presets
pub mod Market
pub mod Endowment
pub mod Apis
pub mod Xcm
mod Figures
mod Examples
mod Witnesses
