-- ===== src/Runtime/Xcm/Origins.antt =====
-- The origins of XCM messages on this chain (`LocationToAccountId` and
-- `XcmOriginToTransactDispatchOrigin` of runtime/src/configs/xcm_config.rs), from the converters
-- of xcm-builder, which a tuple tries in order.
use subtrate.Base.{ℕ, List, [], ◌∷◌, Option, none}
use subtrate.Frame.Dispatch.{AccountId}
use subtrate.Runtime.Xcm.Barrier.{Location}

pub data OriginKind : Type 0 where
  native : OriginKind
  sovereign_account : OriginKind
  superuser : OriginKind
  xcm : OriginKind

-- `RuntimeOrigin`, as far as XCM is concerned.
pub data RuntimeOrigin (V : Type 0) : Type 0 where
  root : RuntimeOrigin V
  signed : AccountId → RuntimeOrigin V
  relay : RuntimeOrigin V
  sibling_para : ℕ → RuntimeOrigin V
  xcm_origin : Location V → RuntimeOrigin V

-- The converters of locations to accounts, of type `A`, and to origins, of type `C`.
pub record ConverterApi (V A C : Type 0) : Type 0 where
  pub convert_location : A → Location V → Option AccountId
  pub parent_is_preset : A
  pub sibling_parachain_converts_via : A
  pub account_id32_aliases : Option V → A
  pub account_tuple : List A → A
  pub convert_origin : C → Location V → OriginKind → Option (RuntimeOrigin V)
  pub sovereign_signed_via_location : A → C
  pub relay_chain_as_native : RuntimeOrigin V → C
  pub sibling_parachain_as_native : C
  pub signed_account_id32_as_native : Option V → C
  pub xcm_passthrough : C
  pub origin_tuple : List C → C

-- `RelayNetwork`
abbrev pub relay_network : {V : Type 0} → Option V
relay_network = none

-- `RelayChainOrigin`
abbrev pub relay_chain_origin : {V : Type 0} → RuntimeOrigin V
relay_chain_origin = relay

module _ {V A C : Type 0} (api : ConverterApi V A C) where
  unfoldable pub location_to_account_id : A
  location_to_account_id = api.account_tuple (
      api.parent_is_preset
      ∷ api.sibling_parachain_converts_via
      ∷ api.account_id32_aliases relay_network
      ∷ [])

  unfoldable pub xcm_origin_to_transact_dispatch_origin : C
  unfolding location_to_account_id
  xcm_origin_to_transact_dispatch_origin = api.origin_tuple (
      api.sovereign_signed_via_location location_to_account_id
      ∷ api.relay_chain_as_native relay_chain_origin
      ∷ api.sibling_parachain_as_native
      ∷ api.signed_account_id32_as_native relay_network
      ∷ api.xcm_passthrough
      ∷ [])
