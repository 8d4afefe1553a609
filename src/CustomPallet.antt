-- ===== src/CustomPallet.antt =====
-- The prediction market pallet (pallets/custom-pallet/src/lib.rs).
pub mod Types
pub mod Calls
pub mod Atomic
pub mod Vote
pub mod Invariant
pub mod Outcome
pub mod Steps
pub mod Preserve
pub mod Reach
pub mod Typed
pub mod Events
pub mod Refusals
pub mod Finality
pub mod Rewards
pub mod Payout
pub mod Release
pub mod Solvency
pub mod SolventRuns
pub mod FullPay
pub mod Identifiers
pub mod Interleaving
pub mod Board
pub mod Liveness
pub mod Token
mod Tests
mod Examples
mod Witnesses
