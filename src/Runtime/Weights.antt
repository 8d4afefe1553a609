-- ===== src/Runtime/Weights.antt =====
-- The weights of a block, an extrinsic and the databases (runtime/src/weights), in reference time,
-- with the checks that the source runs on them as tests.
use subtrate.Base.{ℕ, ◌*◌, ◌≡◌, Bool, ◌&&◌, leb, u64_max, saturating_mul}

-- The constants `WEIGHT_REF_TIME_PER_*` of frame-support.
pub record RefTime : Type 0 where
  pub per_nanos : ℕ
  pub per_micros : ℕ
  pub per_millis : ℕ

pub record IsRefTime (t : RefTime) : Type 0 where
  pub micros : t.per_micros ≡ 1000 * t.per_nanos
  pub millis : t.per_millis ≡ 1000 * t.per_micros

pub record RuntimeDbWeight : Type 0 where
  pub read : ℕ
  pub write : ℕ

module _ (t : RefTime) where
  unfoldable pub block_execution_weight : ℕ
  block_execution_weight = saturating_mul u64_max t.per_nanos 5000000

  unfoldable pub extrinsic_base_weight : ℕ
  extrinsic_base_weight = saturating_mul u64_max t.per_nanos 125000

  unfoldable pub rocks_db_weight : RuntimeDbWeight
  rocks_db_weight = record { read = 25000 * t.per_nanos; write = 100000 * t.per_nanos }

  unfoldable pub parity_db_weight : RuntimeDbWeight
  parity_db_weight = record { read = 8000 * t.per_nanos; write = 50000 * t.per_nanos }

  -- The test `sane` of block_weights.rs.
  unfoldable pub block_weight_sane : Bool
  block_weight_sane =
      leb (100 * t.per_micros) block_execution_weight
      && leb block_execution_weight (50 * t.per_millis)

  -- The test `sane` of extrinsic_weights.rs.
  unfoldable pub extrinsic_weight_sane : Bool
  extrinsic_weight_sane =
      leb (10 * t.per_micros) extrinsic_base_weight && leb extrinsic_base_weight t.per_millis

  -- The test `sane` of rocksdb_weights.rs, at the weight of one read and of one write.
  unfoldable pub db_weight_sane : RuntimeDbWeight → Bool
  db_weight_sane w =
      leb t.per_micros w.read
      && leb t.per_micros w.write
      && leb w.read t.per_millis
      && leb w.write t.per_millis

  -- The test `sane` of paritydb_weights.rs.
  unfoldable pub parity_db_weight_sane : RuntimeDbWeight → Bool
  parity_db_weight_sane w =
      leb t.per_micros w.read
      && leb t.per_micros w.write
      && leb w.read t.per_millis
      && leb w.write t.per_millis
