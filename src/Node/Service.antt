-- ===== src/Node/Service.antt =====
-- The service of the node (node/src/service.rs).
pub mod Types
pub mod Start
pub mod BringUp
pub mod Order
pub mod Parts
pub mod Success
pub mod Panics
