-- ===== src/Runtime/Limits.antt =====
-- The limits on the weight of a block (`RuntimeBlockWeights` of runtime/src/configs/mod.rs, with
-- the ratios of runtime/src/lib.rs). The builder of frame-system applies the closures to its
-- defaults in the order of the code; the limit it derives for a single extrinsic is a
-- parameter.
use subtrate.Base.{
  ℕ, ◌+◌, ◌-◌, ◌*◌, ◌≤◌, ◌≡◌, refl, ◌∙◌, Option, none, some, arith, u64_max, saturating_mul,
}

-- `WeightsPerClass`, as far as the code sets it.
pub record WeightsPerClass (W : Type 0) : Type 0 where
  pub base_extrinsic : W
  pub max_total : Option W
  pub reserved : Option W

pub record BlockWeights (W : Type 0) : Type 0 where
  pub base_block : W
  pub normal : WeightsPerClass W
  pub operational : WeightsPerClass W
  pub mandatory : WeightsPerClass W

-- The operations of sp-weights on weights of two dimensions, a `Perbill` by its percentage, and
-- what the builder derives from the limits of the classes for a whole block.
pub record LimitApi (W : Type 0) : Type 0 where
  pub ref_time : W → ℕ
  pub proof_size : W → ℕ
  pub from_parts : ℕ → ℕ → W
  pub sub : W → W → W
  pub mul_percent : ℕ → W → W
  pub max_block : BlockWeights W → W
  pub ref_time_per_second : ℕ
  pub max_pov_size : ℕ

-- A part of a weight is no more than the weight, and exact where it comes out even; a difference is
-- one in each dimension; a block holds the largest limit of a class. The two constants are those of
-- frame-support and of the relay chain's primitives.
pub record IsLimitApi {W : Type 0} (w : LimitApi W) : Type 0 where
  pub ref_time-from_parts : (t p : ℕ) → w.ref_time (w.from_parts t p) ≡ t
  pub proof_size-from_parts : (t p : ℕ) → w.proof_size (w.from_parts t p) ≡ p
  pub ref_time-mul : (p : ℕ) (a : W) → p ≤ 100 → w.ref_time (w.mul_percent p a) ≤ w.ref_time a
  pub proof_size-mul : (p : ℕ) (a : W) → p ≤ 100 → w.proof_size (w.mul_percent p a) ≤ w.proof_size a
  pub ref_time-percent :
      (p n : ℕ) (a : W) → p * w.ref_time a ≡ 100 * n → w.ref_time (w.mul_percent p a) ≡ n
  pub proof_size-percent :
      (p n : ℕ) (a : W) → p * w.proof_size a ≡ 100 * n → w.proof_size (w.mul_percent p a) ≡ n
  pub ref_time-sub : (a b : W) → w.ref_time (w.sub a b) ≡ w.ref_time a - w.ref_time b
  pub proof_size-sub : (a b : W) → w.proof_size (w.sub a b) ≡ w.proof_size a - w.proof_size b
  pub block_holds :
      (limits : BlockWeights W) (most part : W)
      → limits.normal.max_total ≡ some part
      → limits.operational.max_total ≡ some most
      → limits.mandatory.max_total ≡ none
      → w.ref_time part ≤ w.ref_time most
      → w.proof_size part ≤ w.proof_size most
      → w.max_block limits ≡ most
  pub second : w.ref_time_per_second ≡ 1000000000000
  pub pov : w.max_pov_size ≡ 5 * 1024 * 1024

abbrev pub normal_dispatch_ratio : ℕ
normal_dispatch_ratio = 75

module _ {W : Type 0} (w : LimitApi W) where
  unfoldable pub maximum_block_weight : W
  maximum_block_weight =
      w.from_parts (saturating_mul u64_max w.ref_time_per_second 2) w.max_pov_size

  -- The closures, over `ExtrinsicBaseWeight`.
  unfoldable pub for_all : W → WeightsPerClass W → WeightsPerClass W
  for_all extrinsic_base weights = record weights { base_extrinsic = extrinsic_base }

  unfoldable pub for_normal : WeightsPerClass W → WeightsPerClass W
  for_normal weights = record weights {
    max_total = some (w.mul_percent normal_dispatch_ratio maximum_block_weight);
  }

  unfoldable pub for_operational : WeightsPerClass W → WeightsPerClass W
  for_operational weights = record weights {
    max_total = some maximum_block_weight;
    reserved =
        some
          (w.sub maximum_block_weight (w.mul_percent normal_dispatch_ratio maximum_block_weight));
  }

  -- The builder, over `BlockExecutionWeight` and its defaults.
  unfoldable pub runtime_block_weights : W → W → BlockWeights W → BlockWeights W
  runtime_block_weights block_execution extrinsic_base defaults = record {
    base_block = block_execution;
    normal = for_normal (for_all extrinsic_base defaults.normal);
    operational = for_operational (for_all extrinsic_base defaults.operational);
    mandatory = for_all extrinsic_base defaults.mandatory;
  }

  -- What the normal extrinsics may fill and what is reserved for the operational ones add up to
  -- the most that a block may hold, in both dimensions of a weight.
  pub reserved_complements_normal :
      (laws : IsLimitApi w) (block_execution extrinsic_base : W) (defaults : BlockWeights W)
      → let limits = runtime_block_weights block_execution extrinsic_base defaults in
        (all : W) × (normal : W) × (reserved : W) × (limits.operational.max_total ≡ some all)
        × (limits.normal.max_total ≡ some normal)
        × (limits.operational.reserved ≡ some reserved)
        × (w.ref_time normal + w.ref_time reserved ≡ w.ref_time all)
        × (w.proof_size normal + w.proof_size reserved ≡ w.proof_size all)
  unfolding runtime_block_weights for_normal for_operational for_all
  reserved_complements_normal laws block_execution extrinsic_base defaults =
      let all = maximum_block_weight in
      let part = w.mul_percent normal_dispatch_ratio all in
      (
        all,
        part,
        w.sub all part,
        refl,
        refl,
        refl,
        omega (arith, laws.ref_time-mul 75 all (omega arith), laws.ref_time-sub all part),
        omega (arith, laws.proof_size-mul 75 all (omega arith), laws.proof_size-sub all part),
      )

module _ {W : Type 0} (w : LimitApi W) (laws : IsLimitApi w) where
  -- Two seconds, and five mebibytes of proof.
  pub maximum_parts :
      (w.ref_time (maximum_block_weight w) ≡ 2000000000000)
      × (w.proof_size (maximum_block_weight w) ≡ 5242880)
  unfolding maximum_block_weight
  maximum_parts = (
    laws.ref_time-from_parts _ _ ∙ rw laws.second (omega arith),
    laws.proof_size-from_parts _ _ ∙ laws.pov,
  )

  -- Where the builder leaves the mandatory extrinsics without a limit, a block holds as much as its
  -- operational extrinsics may.
  pub max_block-maximum :
      (block_execution extrinsic_base : W) (defaults : BlockWeights W)
      → defaults.mandatory.max_total ≡ none
      → w.max_block (runtime_block_weights w block_execution extrinsic_base defaults)
        ≡ maximum_block_weight w
  unfolding runtime_block_weights for_normal for_operational for_all
  max_block-maximum block_execution extrinsic_base defaults unlimited =
      let all = maximum_block_weight w in
      laws.block_holds (runtime_block_weights w block_execution extrinsic_base defaults) all
        (w.mul_percent normal_dispatch_ratio all) refl refl unlimited
        (laws.ref_time-mul 75 all (omega arith)) (laws.proof_size-mul 75 all (omega arith))
