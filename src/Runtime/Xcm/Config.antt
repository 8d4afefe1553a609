-- ===== src/Runtime/Xcm/Config.antt =====
-- The configuration of the executor of messages (`XcmConfig` of
-- runtime/src/configs/xcm_config.rs), over the parts that the other files define.
use subtrate.Base.{ℕ, Bool, false, List}
use subtrate.Runtime.Pallets.{Pallet, polkadot_xcm}
use subtrate.Runtime.Weights.{RefTime}
use subtrate.Runtime.Limits.{LimitApi}
use subtrate.Runtime.Fees.{FeeApi}
use subtrate.Runtime.Xcm.Barrier.{Junction, BarrierApi, barrier, universal_location}
use subtrate.Runtime.Xcm.Origins.{ConverterApi, xcm_origin_to_transact_dispatch_origin}
use subtrate.Runtime.Xcm.Assets.{AssetApi, local_asset_transactor, reserve}
use subtrate.Runtime.Xcm.Router.{RouterApi, xcm_router}
use subtrate.Runtime.Xcm.Weighing.{WeigherApi, weigher}
use subtrate.Runtime.Xcm.Trading.{TraderApi, trader}
use subtrate.Runtime.Xcm.Executor.{ExecutorConfig, executor_config}

-- The senders, transactors, converters, barriers, weighers and traders are of the types `S`, `T`,
-- `C`, `B`, `G` and `H`. A handler is a pallet, or `()`, which is none.
pub record XcmConfig (V Y R S T C B G H : Type 0) : Type 0 where
  pub xcm_sender : S
  pub asset_transactor : T
  pub origin_converter : C
  pub filters : ExecutorConfig V Y R
  pub universal_location : List (Junction V)
  pub barrier : B
  pub weigher : G
  pub trader : H
  pub response_handler : Pallet
  pub asset_trap : Pallet
  pub asset_claims : Pallet
  pub subscription_service : Pallet
  pub has_fee_manager : Bool
  pub has_hrmp_handlers : Bool
  pub xcm_recorder : Pallet

module _ {V A C R X T M B S W N G U H : Type 0} (converters : ConverterApi V A C)
    (assets : AssetApi V A R X T) (barriers : BarrierApi V M B) (routers : RouterApi V S)
    (w : LimitApi W) (weighers : WeigherApi W N G) (fees : FeeApi W) (t : RefTime)
    (traders : TraderApi V W U H) (para_id : ℕ) where
  unfoldable pub xcm_config : {Y : Type 0} → XcmConfig V Y R S T C B G H
  xcm_config = record {
    xcm_sender = xcm_router routers;
    asset_transactor = local_asset_transactor converters assets;
    origin_converter = xcm_origin_to_transact_dispatch_origin converters;
    filters = executor_config (reserve converters assets);
    universal_location = universal_location para_id;
    barrier = barrier barriers para_id;
    weigher = weigher w weighers;
    trader = trader w fees t traders;
    response_handler = polkadot_xcm;
    asset_trap = polkadot_xcm;
    asset_claims = polkadot_xcm;
    subscription_service = polkadot_xcm;
    has_fee_manager = false;
    has_hrmp_handlers = false;
    xcm_recorder = polkadot_xcm;
  }
