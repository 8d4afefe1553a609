-- ===== src/Runtime/Xcm/Weighing.antt =====
-- How a message is weighed (`UnitWeightCost`, `MaxInstructions` and `Weigher` of
-- runtime/src/configs/xcm_config.rs), and how much of a block the queue of messages may use
-- (`MessageQueueServiceWeight` of runtime/src/configs/mod.rs).
use subtrate.Base.{ℕ, ◌+◌, ◌*◌, ◌≤◌, ◌<◌, ◌≡◌, refl, ◌∙◌, ◌↔◌, Option, none, some, arith, u64_max}
use subtrate.Runtime.Limits.{
  LimitApi, IsLimitApi, BlockWeights, maximum_block_weight, runtime_block_weights, maximum_parts,
  max_block-maximum,
}

-- The weighers of xcm-builder, of type `G`, and what they see of a message: how many instructions
-- it has, those of the programs in it included, and what its `Transact`s ask for, added up.
pub record WeigherApi (W M G : Type 0) : Type 0 where
  pub fixed_weight_bounds : W → ℕ → G
  pub weight : G → M → Option W
  pub instructions : M → ℕ
  pub transacts : M → W

abbrev pub max_instructions : ℕ
max_instructions = 100

module _ {W : Type 0} (w : LimitApi W) where
  unfoldable pub unit_weight_cost : W
  unit_weight_cost = w.from_parts 1000000000 (64 * 1024)

  -- Over `RuntimeBlockWeights`.
  unfoldable pub message_queue_service_weight : BlockWeights W → W
  message_queue_service_weight limits = w.mul_percent 35 (w.max_block limits)

module _ {W M G : Type 0} (w : LimitApi W) (api : WeigherApi W M G) where
  -- `Weigher` of the executor and of pallet-xcm.
  unfoldable pub weigher : G
  unfolding unit_weight_cost
  weigher = api.fixed_weight_bounds (unit_weight_cost w) max_instructions

  -- The documented behaviour: every instruction costs the unit, a `Transact` what it asks for
  -- beside it, and a message is refused for too many instructions or an overflow.
  pub record IsWeigherApi : Type 0 where
    pub weighed :
        (unit a : W) (most : ℕ) (m : M)
        → api.weight (api.fixed_weight_bounds unit most) m ≡ some a
        → (api.instructions m ≤ most)
          × (w.ref_time a ≡ api.instructions m * w.ref_time unit + w.ref_time (api.transacts m))
          × (w.proof_size a
              ≡ api.instructions m * w.proof_size unit + w.proof_size (api.transacts m))
    pub weighs :
        (unit : W) (most : ℕ) (m : M)
        → api.instructions m ≤ most
        → api.instructions m * w.ref_time unit + w.ref_time (api.transacts m) ≤ u64_max
        → api.instructions m * w.proof_size unit + w.proof_size (api.transacts m) ≤ u64_max
        → (a : W) × (api.weight (api.fixed_weight_bounds unit most) m ≡ some a)

  -- A message that is weighed, and with what the queue takes for itself no more than it may use in
  -- a block.
  abbrev pub IsServed : W → W → M → Type 0
  IsServed service overhead m =
      (a : W) × (api.weight weigher m ≡ some a)
      × (w.ref_time overhead + w.ref_time a ≤ w.ref_time service)
      × (w.proof_size overhead + w.proof_size a ≤ w.proof_size service)

module _ {W M G : Type 0} (w : LimitApi W) (api : WeigherApi W M G) (limited : IsLimitApi w)
    (laws : IsWeigherApi w api) where
  -- What the weigher says of a message, in numbers.
  pub weigher_parts :
      (m : M) (a : W)
      → api.weight (weigher w api) m ≡ some a
      → (api.instructions m ≤ 100)
        × (w.ref_time a ≡ api.instructions m * 1000000000 + w.ref_time (api.transacts m))
        × (w.proof_size a ≡ api.instructions m * 65536 + w.proof_size (api.transacts m))
  unfolding weigher
  weigher_parts m a h =
      let (few, time, size) = laws.weighed (w.from_parts 1000000000 (64 * 1024)) a 100 m h in
      (
        few,
        time ∙ rw (limited.ref_time-from_parts 1000000000 (64 * 1024)) refl,
        size ∙ rw (limited.proof_size-from_parts 1000000000 (64 * 1024)) refl,
      )

  pub weigher_takes :
      (m : M)
      → api.instructions m ≤ 100
      → api.instructions m * 1000000000 + w.ref_time (api.transacts m) ≤ u64_max
      → api.instructions m * 65536 + w.proof_size (api.transacts m) ≤ u64_max
      → (a : W) × (api.weight (weigher w api) m ≡ some a)
  unfolding weigher
  weigher_takes m few time size =
      laws.weighs (w.from_parts 1000000000 (64 * 1024)) 100 m few
        (rw (limited.ref_time-from_parts 1000000000 (64 * 1024)) time)
        (rw (limited.proof_size-from_parts 1000000000 (64 * 1024)) size)

  module _ (block_execution extrinsic_base : W) (defaults : BlockWeights W)
      (unlimited : defaults.mandatory.max_total ≡ none) where
    service_parts :
        let limits = runtime_block_weights w block_execution extrinsic_base defaults in
        (w.ref_time (message_queue_service_weight w limits) ≡ 700000000000)
        × (w.proof_size (message_queue_service_weight w limits) ≡ 1835008)
    unfolding message_queue_service_weight
    service_parts =
        let (time, size) = maximum_parts w limited in
        let whole = max_block-maximum w limited block_execution extrinsic_base defaults unlimited in
        rw (whole, message_queue_service_weight)
          (
            limited.ref_time-percent 35 700000000000 (maximum_block_weight w) (omega arith),
            limited.proof_size-percent 35 1835008 (maximum_block_weight w) (omega arith),
          )

    -- The queue has room for a message in a block exactly if its instructions, at a millisecond of
    -- time and 64 KiB of proof each, what its `Transact`s ask for and the overhead of the queue
    -- come to no more than 35% of the largest block, where the relay chain takes 5 MiB of proof. A
    -- message with more than 28 instructions never does, nor one with 28 if the overhead has a
    -- proof, although the weigher takes up to `MaxInstructions`. The overhead is any that the queue
    -- takes off before it serves a message. The builder is taken to leave the mandatory extrinsics
    -- without a limit.
    pub IsServed-iff :
        let limits = runtime_block_weights w block_execution extrinsic_base defaults in
        let service = message_queue_service_weight w limits in
        (overhead : W) (m : M)
        → (IsServed w api service overhead m ↔ (
            (w.ref_time overhead + api.instructions m * 1000000000 + w.ref_time (api.transacts m)
              ≤ 700000000000)
            × (w.proof_size overhead + api.instructions m * 65536 + w.proof_size (api.transacts m)
                ≤ 1835008)))
          × (28 < api.instructions m → ¬ IsServed w api service overhead m)
          × (0 < w.proof_size overhead
              → 28 ≤ api.instructions m
              → ¬ IsServed w api service overhead m)
    IsServed-iff overhead m =
        let (time, size) = service_parts in
        let parts = weigher_parts m in
        (
          (
            λ (a, h, t, p). let (few, in_time, in_size) = parts a h in (omega arith, omega arith),
            λ (t, p).
                let (a, h) = weigher_takes m (omega arith) (omega arith) (omega arith) in
                let (few, in_time, in_size) = parts a h in (a, h, omega arith, omega arith),
          ),
          λ long (a, h, t, p). let (few, in_time, in_size) = parts a h in omega arith,
          λ some_proof long (a, h, t, p). let (few, in_time, in_size) = parts a h in omega arith,
        )
