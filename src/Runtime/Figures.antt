-- ===== src/Runtime/Figures.antt =====
-- Concrete libraries of the runtime (runtime/src), for the witnesses: a weight is a pair, a
-- nanosecond a weight of 1000, an account the place of its seed, and an identifier a text.
use Prim.Native.String.{String}
use text.Mathlib.Text.{◌==◌ as ◌str_eq◌}
use text.Mathlib.TextEquality.{eq_iff}
use native.Mathlib.Nat.{div-le_of_le-mul}
use subtrate.Base.{
  ℕ, ◌+◌, ◌*◌, ◌/◌, ◌-◌, ◌≤◌, ◌≡◌, refl, sym, ap, ◌∙◌, inl, inr, true, none, some, List, [], ◌∷◌,
  arith, zero, suc, Bool, Bool-cases, ◌&&◌, Option, if◌then◌else◌,
}
use subtrate.Runtime.Weights.{RefTime}
use subtrate.Runtime.Limits.{LimitApi, IsLimitApi, WeightsPerClass, BlockWeights}
use subtrate.Runtime.Fees.{WeightToFeeCoefficient, billion, part_of, FeeApi, IsFeeApi}
use subtrate.Runtime.Genesis.{GenesisHelpers}
use subtrate.Runtime.Presets.{PresetApi, IsOneOf}
use subtrate.Runtime.Endowment.{seeds}

abbrev pub Pair : Type 0
Pair = ℕ × ℕ

abbrev of_option : Option Pair → Pair
of_option none = (0, 0)
of_option (some a) = a

abbrev pub weights : LimitApi Pair
weights = record {
  ref_time = λ a. a.0;
  proof_size = λ a. a.1;
  from_parts = λ t p. (t, p);
  sub = λ a b. (a.0 - b.0, a.1 - b.1);
  mul_percent = λ p a. (p * a.0 / 100, p * a.1 / 100);
  max_block = λ limits. of_option limits.operational.max_total;
  ref_time_per_second = 1000000000000;
  max_pov_size = 5242880;
}

percent-le : (p x : ℕ) → p ≤ 100 → p * x / 100 ≤ x
percent-le p x h = let most : p * x ≤ 100 * x = grind arith in div-le_of_le-mul 100 most

pub weights-IsLimitApi : IsLimitApi weights
weights-IsLimitApi = record {
  ref_time-from_parts = λ t p. refl;
  proof_size-from_parts = λ t p. refl;
  ref_time-percent = λ p n a h. omega arith;
  proof_size-percent = λ p n a h. omega arith;
  ref_time-mul = λ p a h. percent-le p a.0 h;
  proof_size-mul = λ p a h. percent-le p a.1 h;
  ref_time-sub = λ a b. refl;
  proof_size-sub = λ a b. refl;
  block_holds = λ limits most part n o m t p. rw o;
  second = refl;
  pov = refl;
}

abbrev class : WeightsPerClass Pair
class = record { base_extrinsic = (0, 0); max_total = none; reserved = none }

abbrev pub defaults : BlockWeights Pair
defaults = record { base_block = (0, 0); normal = class; operational = class; mandatory = class }

abbrev pub time : RefTime
time = record { per_nanos = 1000; per_micros = 1000000; per_millis = 1000000000 }

abbrev first_fee : List WeightToFeeCoefficient → Pair → ℕ
first_fee [] a = 0
first_fee (c ∷ cs) a = part_of c.coeff_frac a.0 + c.coeff_integer * a.0

abbrev pub fees : FeeApi Pair
fees = record {
  from_rational =
      λ n d. let factor = (d + 999999999) / billion in (n / factor) * billion / (d / factor);
  fee_of = first_fee;
  constant_multiplier = λ m a. m * a.0;
}

pub fees-IsFeeApi : IsFeeApi weights fees time
fees-IsFeeApi = record {
  nanosecond = refl;
  rational = λ n d positive h. refl;
  fee-linear = λ c a one positive small. refl;
  multiplied = λ m a h. refl;
}

-- The place of a seed.
abbrev place : String → List String → ℕ
place s [] = 0
place s (t ∷ l) = if s str_eq t then 0 else 1 + place s l

abbrev seed_at : ℕ → List String → String
seed_at n [] = ""
seed_at zero (t ∷ l) = t
seed_at (suc n) (t ∷ l) = seed_at n l

abbrev pub helpers : GenesisHelpers ℕ
helpers = record {
  get_account_id_from_seed = λ s. place s seeds;
  get_collator_keys_from_seed = λ s. 100 + place s seeds;
  xcm_version = 4;
}

abbrev back : String → String
back s = seed_at (place s seeds) seeds

abbrev all_back : List String → Bool
all_back [] = true
all_back (s ∷ l) = (back s str_eq s) && all_back l

back-place : (s : String) (l : List String) → all_back l ≡ true → IsOneOf s l → back s ≡ s
back-place s [] h x = elim x [ ]
back-place s (t ∷ l) h m = elim (Bool-cases (back t str_eq t)) [
  | inl e ↦ elim m [
    | inl p ↦ ap back p ∙ (eq_iff (back t) t).0 e ∙ sym p
    | inr n ↦ back-place s l (grind arith) n
  ]
  | inr e ↦ grind arith
]

pub place-injective :
    (s t : String) → IsOneOf s seeds → IsOneOf t seeds → place s seeds ≡ place t seeds → s ≡ t
place-injective s t m n p =
    sym (back-place s seeds refl m) ∙ ap (λ k. seed_at k seeds) p ∙ back-place t seeds refl n

abbrev pub presets : PresetApi String
presets = record {
  try_into = λ s. some s;
  from = λ s. s;
  dev_runtime_preset = "development";
  local_testnet_runtime_preset = "local_testnet";
}
