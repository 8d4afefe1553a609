-- ===== src/Runtime/Fees.antt =====
-- The fee of a weight (`WeightToFee` of runtime/src/lib.rs): a polynomial of degree one.
use subtrate.Base.{
  ℕ, ◌+◌, ◌*◌, ◌/◌, ◌%◌, ◌≤◌, ◌<◌, ◌≡◌, refl, ap, ◌∙◌, Bool, false, List, [], ◌∷◌, arith, u128_max,
  u64_max,
}
use subtrate.Runtime.Constants.{milli_unit}
use subtrate.Runtime.Weights.{RefTime, extrinsic_base_weight}
use subtrate.Runtime.Limits.{LimitApi}

-- frame-support; `coeff_frac` is a `Perbill`, by its parts of a billion.
pub record WeightToFeeCoefficient : Type 0 where
  pub degree : ℕ
  pub negative : Bool
  pub coeff_frac : ℕ
  pub coeff_integer : ℕ

abbrev pub billion : ℕ
billion = 1000000000

-- `polynomial`, by `Perbill::from_rational` and the reference time of `ExtrinsicBaseWeight`.
unfoldable pub polynomial : (ℕ → ℕ → ℕ) → ℕ → List WeightToFeeCoefficient
polynomial from_rational base =
    let p = milli_unit / 10 in
    let q = 100 * base in
    record {
      degree = 1;
      negative = false;
      coeff_frac = from_rational (p % q) q;
      coeff_integer = p / q;
    }
    ∷ []

-- `Perbill::from_rational`, by the parts of a billion, `WeightToFeePolynomial::weight_to_fee` and
-- `ConstantMultiplier::weight_to_fee`.
pub record FeeApi (W : Type 0) : Type 0 where
  pub from_rational : ℕ → ℕ → ℕ
  pub fee_of : List WeightToFeeCoefficient → W → ℕ
  pub constant_multiplier : ℕ → W → ℕ

abbrev coefficient : WeightToFeeCoefficient
coefficient = record { degree = 1; negative = false; coeff_frac = 7999999; coeff_integer = 0 }

-- The part of a billion that a `Perbill` takes of a number, to the nearest, and down at a half.
abbrev pub part_of : ℕ → ℕ → ℕ
part_of parts n = (parts * n + 499999999) / billion

module _ {W : Type 0} (w : LimitApi W) (api : FeeApi W) (t : RefTime) where
  -- The fee by `WeightToFee`.
  unfoldable pub weight_to_fee : W → ℕ
  weight_to_fee a = api.fee_of (polynomial api.from_rational (extrinsic_base_weight t)) a

  -- The behaviour of the libraries: `from_rational` first divides both numbers, down, by so much
  -- that the lower one is at most a billion; a polynomial of degree one is its fraction and its
  -- multiple of the weight, and a multiplier multiplies, where these are a `u128`; and a
  -- nanosecond is a weight of 1000.
  pub record IsFeeApi : Type 0 where
    pub nanosecond : t.per_nanos ≡ 1000
    pub rational :
        (n d : ℕ)
        → 0 < d
        → n ≤ d
        → let factor = (d + 999999999) / billion in
          api.from_rational n d ≡ (n / factor) * billion / (d / factor)
    pub fee-linear :
        (c : WeightToFeeCoefficient) (a : W)
        → c.degree ≡ 1
        → c.negative ≡ false
        → part_of c.coeff_frac (w.ref_time a) + c.coeff_integer * w.ref_time a ≤ u128_max
        → api.fee_of (c ∷ []) a
          ≡ part_of c.coeff_frac (w.ref_time a) + c.coeff_integer * w.ref_time a
    pub multiplied :
        (m : ℕ) (a : W)
        → m * w.ref_time a ≤ u128_max
        → api.constant_multiplier m a ≡ m * w.ref_time a

  module _ (laws : IsFeeApi) where
    base-value : extrinsic_base_weight t ≡ 125000000
    unfolding extrinsic_base_weight
    base-value = let n = laws.nanosecond in omega arith

    polynomial-value : polynomial api.from_rational (extrinsic_base_weight t) ≡ coefficient ∷ []
    unfolding polynomial
    polynomial-value =
        let frac = laws.rational 100000000 12500000000 (omega arith) (omega arith) in
        rw base-value (ap (λ (k : ℕ). record coefficient { coeff_frac = k } ∷ []) frac)

    -- A fee is 7999999 units for a weight of a billion, to the nearest unit.
    pub fee-value :
        (a : W) → w.ref_time a ≤ u64_max → weight_to_fee a ≡ part_of 7999999 (w.ref_time a)
    unfolding weight_to_fee
    fee-value a small =
        rw (polynomial-value, weight_to_fee)
          (laws.fee-linear coefficient a refl refl (omega arith) ∙ omega arith)
