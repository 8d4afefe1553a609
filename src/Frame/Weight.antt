-- ===== src/Frame/Weight.antt =====
-- The weights of sp-weights, which the repository takes as they are: a two-dimensional cost with
-- the operations that the code calls, and their documented meaning.
use subtrate.Base.{ℕ, ◌≡◌, saturating_add, u64_max}

pub record WeightApi (W : Type 0) : Type 0 where
  pub ref_time : W → ℕ
  pub proof_size : W → ℕ
  pub from_parts : ℕ → ℕ → W
  -- `saturating_add`, and `+`, which the code uses where nothing overflows
  pub add : W → W → W

pub record IsWeightApi {W : Type 0} (w : WeightApi W) : Type 0 where
  pub ref_time-from_parts : (t p : ℕ) → w.ref_time (w.from_parts t p) ≡ t
  pub proof_size-from_parts : (t p : ℕ) → w.proof_size (w.from_parts t p) ≡ p
  pub ref_time-add :
      (a b : W) → w.ref_time (w.add a b) ≡ saturating_add u64_max (w.ref_time a) (w.ref_time b)
  pub proof_size-add :
      (a b : W)
      → w.proof_size (w.add a b) ≡ saturating_add u64_max (w.proof_size a) (w.proof_size b)

-- `RuntimeDbWeight`: the weight of a number of reads or of writes.
pub record DbWeight (W : Type 0) : Type 0 where
  pub reads : ℕ → W
  pub writes : ℕ → W
