-- ===== src/Runtime/Sane.antt =====
-- The tests of runtime/src/weights, for any unit of time in which they can be represented.
use subtrate.Base.{◌*◌, ◌≤◌, ◌≡◌, true, arith, u64_max}
use subtrate.Runtime.Weights.{
  RefTime, IsRefTime, block_execution_weight, extrinsic_base_weight, rocks_db_weight,
  parity_db_weight, block_weight_sane, extrinsic_weight_sane, db_weight_sane, parity_db_weight_sane,
}

-- The tests on the weights of a block, of an extrinsic and of both databases pass, whatever the
-- weight of a nanosecond is, if the execution of a block fits in the `u64` of a weight.
pub weights_sane :
    (t : RefTime)
    → IsRefTime t
    → 5000000 * t.per_nanos ≤ u64_max
    → (block_weight_sane t ≡ true)
      × (extrinsic_weight_sane t ≡ true)
      × (db_weight_sane t (rocks_db_weight t) ≡ true)
      × (parity_db_weight_sane t (parity_db_weight t) ≡ true)
unfolding block_execution_weight extrinsic_base_weight rocks_db_weight parity_db_weight
    block_weight_sane extrinsic_weight_sane db_weight_sane parity_db_weight_sane
weights_sane t laws h =
    let micros = laws.micros in
    let millis = laws.millis in (ground arith, ground arith, ground arith, ground arith)
