-- ===== src/Runtime/Xcm.antt =====
-- The configuration of XCM (runtime/src/configs/xcm_config.rs).
pub mod Barrier
pub mod Admission
pub mod Origins
pub mod Dispatching
pub mod Checks
pub mod Privileged
pub mod Local
pub mod Assets
pub mod Router
pub mod Messages
pub mod Weighing
pub mod Trading
pub mod Executor
pub mod UserCalls
pub mod Config
mod Figures
mod Openings
mod Examples
mod Samples
