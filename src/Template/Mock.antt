-- ===== src/Template/Mock.antt =====
-- The runtime in which the template pallet is tested (pallets/template/src/mock.rs): its pallets
-- with their indices, and what it configures.
use subtrate.Base.{ℕ}
use subtrate.Frame.Weight.{WeightApi, DbWeight}
use subtrate.Template.Weights.{WeightInfo, unit_weight}

pub data MockPallet : Type 0 where
  system : MockPallet
  template_module : MockPallet

unfoldable pub mock_pallet_index : MockPallet → ℕ
mock_pallet_index system = 0
mock_pallet_index template_module = 1

pub record MockConfig (W : Type 0) : Type 0 where
  pub block_hash_count : ℕ
  pub db_weight : DbWeight W
  pub weight_info : WeightInfo W

-- Over the `RocksDbWeight` of frame-support.
unfoldable pub mock_config : {W : Type 0} → WeightApi W → DbWeight W → MockConfig W
mock_config w rocks_db_weight = record {
  block_hash_count = 250;
  db_weight = rocks_db_weight;
  weight_info = unit_weight w rocks_db_weight;
}
