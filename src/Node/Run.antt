-- ===== src/Node/Run.antt =====
-- The command of the node: `run` of node/src/command.rs.
pub mod Types
pub mod Main
pub mod Subcommands
pub mod Node
pub mod Genesis
pub mod Success
