-- ===== src/Runtime/Payment.antt =====
-- The configuration of the transaction payment (`impl pallet_transaction_payment::Config for
-- Runtime` of runtime/src/configs/mod.rs), by its parts that are values.
use subtrate.Base.{ℕ}
use subtrate.Runtime.Constants.{transaction_byte_fee}
use subtrate.Runtime.Weights.{RefTime}
use subtrate.Runtime.Limits.{LimitApi}
use subtrate.Runtime.Fees.{FeeApi, weight_to_fee}

pub record PaymentConfig (W : Type 0) : Type 0 where
  pub weight_to_fee : W → ℕ
  pub length_to_fee : W → ℕ
  pub operational_fee_multiplier : ℕ

unfoldable pub payment_config : {W : Type 0} → LimitApi W → FeeApi W → RefTime → PaymentConfig W
payment_config w fees t = record {
  weight_to_fee = weight_to_fee w fees t;
  length_to_fee = fees.constant_multiplier transaction_byte_fee;
  operational_fee_multiplier = 5;
}
