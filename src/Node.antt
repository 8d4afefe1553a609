-- ===== src/Node.antt =====
-- The collator node (node/src): chain specifications and the command line.
pub mod ChainSpec
pub mod Effects
pub mod Emits
pub mod Returns
pub mod Ends
pub mod Finishes
pub mod Records
pub mod Command
pub mod Loading
pub mod Service
pub mod RelayChain
pub mod Rpc
pub mod SubstrateCli
pub mod Run
mod Examples
