-- ===== src/Runtime/Apis/Charges.antt =====
-- The fees that the runtime quotes (`TransactionPaymentApi` and `TransactionPaymentCallApi` of
-- runtime/src/apis.rs, with the fees of runtime/src/lib.rs and runtime/src/configs/mod.rs).
use subtrate.Base.{ℕ, ◌*◌, ◌≤◌, ◌≡◌, ap, ◌∙◌, none, min, arith, u32_max}
use subtrate.Runtime.Weights.{block_execution_weight, extrinsic_base_weight}
use subtrate.Runtime.Constants.{micro_unit}
use subtrate.Runtime.Limits.{IsLimitApi, maximum_parts, max_block-maximum}
use subtrate.Runtime.Fees.{IsFeeApi, part_of, fee-value}
use subtrate.Runtime.Payment.{PaymentConfig, payment_config}
use subtrate.Runtime.Apis.Requests
use subtrate.Runtime.Apis.Answers.{Libraries, answer, block_weights}

module _ {S V W K P A : Type 0} (l : Libraries S V W K P A) where
  -- The documented behaviour of the transaction payment: a weight is capped by that of a block, and
  -- a length is the reference time of a weight.
  pub record IsPaymentApi (min_weight : W → W → W) : Type 0 where
    pub ref_time-min :
        (a b : W)
        → l.limits.ref_time (min_weight a b) ≡ min (l.limits.ref_time a) (l.limits.ref_time b)
    pub weight-capped :
        (c : PaymentConfig W) (a : W)
        → l.frame.payment_weight_to_fee c a
          ≡ c.weight_to_fee (min_weight a (l.limits.max_block (block_weights l)))
    pub length-weighed :
        (c : PaymentConfig W) (n : ℕ)
        → l.frame.payment_length_to_fee c n ≡ c.length_to_fee (l.limits.from_parts n 0)

  module _ (limited : IsLimitApi l.limits) (charged : IsFeeApi l.limits l.fees l.time)
      (min_weight : W → W → W) (laws : IsPaymentApi min_weight)
      (unlimited : l.defaults.mandatory.max_total ≡ none) where
    quoted_weight :
        (a : W)
        → l.frame.payment_weight_to_fee (payment_config l.limits l.fees l.time) a
          ≡ part_of 7999999 (min (l.limits.ref_time a) 2000000000000)
    unfolding payment_config
    quoted_weight a =
        let (time, size) = maximum_parts l.limits limited in
        let whole =
          max_block-maximum l.limits limited (l.limits.from_parts (block_execution_weight l.time) 0)
            (l.limits.from_parts (extrinsic_base_weight l.time) 0) l.defaults unlimited in
        let capped = min_weight a (l.limits.max_block (block_weights l)) in
        let short : l.limits.ref_time capped ≡ min (l.limits.ref_time a) 2000000000000 =
          laws.ref_time-min a (l.limits.max_block (block_weights l))
          ∙ ap (λ m. min (l.limits.ref_time a) (l.limits.ref_time m)) whole
          ∙ ap (min (l.limits.ref_time a)) time in
        laws.weight-capped (payment_config l.limits l.fees l.time) a
        ∙ fee-value l.limits l.fees l.time charged capped (omega arith)
        ∙ ap (part_of 7999999) short

    quoted_length :
        (n : ℕ)
        → n ≤ u32_max
        → l.frame.payment_length_to_fee (payment_config l.limits l.fees l.time) n
          ≡ 10 * micro_unit * n
    unfolding payment_config
    quoted_length n h =
        let time = limited.ref_time-from_parts n 0 in
        laws.length-weighed (payment_config l.limits l.fees l.time) n
        ∙ charged.multiplied (10 * micro_unit) (l.limits.from_parts n 0) (omega arith)
        ∙ ap (λ m. 10 * micro_unit * m) time

    -- Either of the two interfaces quotes 7999999 units for a millisecond of a weight, to the
    -- nearest unit, and never more than 15999998000, the fee of a whole block, which is 2000 units
    -- less than 16 `MILLI_UNIT`, whatever the size of the proof; and 10 `MICRO_UNIT` for each byte
    -- of a length. The builder is taken to leave the mandatory extrinsics without a limit.
    pub fees_quoted :
        (a : W) (n : ℕ) (s : S)
        → n ≤ u32_max
        → let fee = part_of 7999999 (min (l.limits.ref_time a) 2000000000000) in
          (answer l (Requests.query_weight_to_fee a) s ≡ Requests.replied (Requests.number fee) s)
          × (answer l (Requests.query_call_weight_to_fee a) s
              ≡ Requests.replied (Requests.number fee) s)
          × (fee ≤ 15999998000)
          × (answer l (Requests.query_length_to_fee n) s
              ≡ Requests.replied (Requests.number (10 * micro_unit * n)) s)
          × (answer l (Requests.query_call_length_to_fee n) s
              ≡ Requests.replied (Requests.number (10 * micro_unit * n)) s)
    unfolding answer
    fees_quoted a n s small =
        let by_weight = ap (λ m. Requests.replied (Requests.number m) s) (quoted_weight a) in
        let by_length = ap (λ m. Requests.replied (Requests.number m) s) (quoted_length n small) in
        (by_weight, by_weight, omega arith, by_length, by_length)
