-- ===== src/Runtime/Xcm/Trading.antt =====
-- What the execution of a message costs (`Trader` of runtime/src/configs/xcm_config.rs, with
-- `WeightToFee` of runtime/src/lib.rs).
use subtrate.Base.{ℕ, ◌+◌, ◌*◌, ◌≤◌, ◌<◌, ◌≡◌, sym, ap, ◌∙◌, ◌↔◌, Option, some, arith, u64_max}
use subtrate.Runtime.Fees.{FeeApi, IsFeeApi, weight_to_fee, part_of, fee-value}
use subtrate.Runtime.Weights.{RefTime}
use subtrate.Runtime.Limits.{LimitApi, IsLimitApi}
use subtrate.Runtime.Xcm.Barrier.{Location, relay_location}
use subtrate.Runtime.Xcm.Assets.{Asset, fungible}
use subtrate.Runtime.Xcm.Weighing.{WeigherApi, IsWeigherApi, weigher, weigher_parts}

-- The traders of xcm-builder, of type `T`, which hand what they earn to a handler, of type `R`.
-- `buy_weight` gives what is left of the asset that pays for a weight.
pub record TraderApi (V W R T : Type 0) : Type 0 where
  pub to_author : R
  pub using_components : (W → ℕ) → Location V → R → T
  pub buy_weight : T → W → Asset V → Option ℕ

module _ {V W R T : Type 0} (w : LimitApi W) (fees : FeeApi W) (t : RefTime)
    (api : TraderApi V W R T) where
  unfoldable pub trader : T
  trader = api.using_components (weight_to_fee w fees t) relay_location api.to_author

  -- The documented behaviour: a trader asks for the fee in its asset.
  pub record IsTraderApi : Type 0 where
    pub buy_iff :
        (fee : W → ℕ) (l : Location V) (r : R) (a : W) (asset : Asset V) (rest : ℕ)
        → 0 < fee a
        → (api.buy_weight (api.using_components fee l r) a asset ≡ some rest)
          ↔ ((asset.id ≡ l) × (asset.amount ≡ fungible (fee a + rest)))

module _ {V W R T : Type 0} (w : LimitApi W) (fees : FeeApi W) (t : RefTime)
    (charged : IsFeeApi w fees t) (api : TraderApi V W R T) (laws : IsTraderApi w fees t api) where
  module _ {M G : Type 0} (weighers : WeigherApi W M G) (limited : IsLimitApi w)
      (weighed : IsWeigherApi w weighers) where
    -- The weight of a message is bought with an asset exactly if that is an amount of the relay
    -- chain's token which is at least the price: 7999999 units for each instruction, one less than
    -- 8 `MICRO_UNIT`, and as many for a millisecond that its `Transact`s ask for, to the nearest
    -- unit; the rest is left. The message has an instruction, and its weight is a `u64`.
    pub buy_weight_iff :
        (m : M) (a : W) (asset : Asset V) (rest : ℕ)
        → weighers.weight (weigher w weighers) m ≡ some a
        → 0 < weighers.instructions m
        → w.ref_time a ≤ u64_max
        → (api.buy_weight (trader w fees t api) a asset ≡ some rest) ↔ (
            asset ≡ record {
              id = relay_location;
              amount = fungible (
                  weighers.instructions m * 7999999
                  + part_of 7999999 (w.ref_time (weighers.transacts m))
                  + rest);
            })
    unfolding trader
    buy_weight_iff m a asset rest h some_left small =
        let (few, time, size) = weigher_parts w weighers limited weighed m a h in
        let price =
          weighers.instructions m * 7999999 + part_of 7999999 (w.ref_time (weighers.transacts m)) in
        let fee : weight_to_fee w fees t a ≡ price =
          fee-value w fees t charged a small ∙ omega arith in
        let bought =
          laws.buy_iff (weight_to_fee w fees t) relay_location api.to_author a asset rest
            (omega arith) in
        (
          λ e.
              let (token, amount) = bought.0 e in
              λ i. record { id = token i; amount = (amount ∙ ap (λ n. fungible (n + rest)) fee) i },
          λ e. bought.1 (
            ap (λ (x : Asset V). x.id) e,
            ap (λ (x : Asset V). x.amount) e ∙ sym (ap (λ n. fungible (n + rest)) fee),
          ),
        )
