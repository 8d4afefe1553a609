-- ===== src/Frame.antt =====
-- What every pallet takes from FRAME: the origin of a call and its result, the storage maps, and
-- the trait of a currency.
pub mod Dispatch
pub mod StorageMap
pub mod StorageDoubleMap
pub mod Currency
pub mod Weight
