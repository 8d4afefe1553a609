-- ===== src/Runtime/Xcm/Checks.antt =====
-- The checks on origins that the runtime configures (runtime/src/configs/mod.rs and
-- runtime/src/configs/xcm_config.rs), from those of frame-system and pallet-xcm.
use subtrate.Base.{◌≡◌, ◌↔◌, Bool, true, false, ◌||◌, [], ◌∷◌, ◌++◌, Option, none, some}
use subtrate.Runtime.Xcm.Barrier.{
  BodyId, defense, account_id32, plurality, Location, relay_location,
}
use subtrate.Runtime.Xcm.Origins.{
  RuntimeOrigin, root, signed, relay, sibling_para, xcm_origin, relay_network,
}

-- The checks that an origin passes, of type `O`, the conversions of local origins to locations, of
-- type `L`, and the checks that yield the location of a local origin, of type `E`.
pub record CheckApi (V O L E : Type 0) : Type 0 where
  pub try_origin : O → RuntimeOrigin V → Bool
  pub ensure_root : O
  pub ensure_xcm : (Location V → Bool) → O
  pub either_of_diverse : O → O → O
  pub is_voice_of_body : Location V → BodyId V → Location V → Bool
  pub try_convert : L → RuntimeOrigin V → Option (Location V)
  pub signed_to_account_id32 : Option V → L
  pub ensure_xcm_origin : L → E
  pub ensure_origin : E → RuntimeOrigin V → Option (Location V)

-- `StakingAdminBodyId`
abbrev pub staking_admin_body_id : {V : Type 0} → BodyId V
staking_admin_body_id = defense

module _ {V O L E : Type 0} (api : CheckApi V O L E) where
  unfoldable pub collator_selection_update_origin : O
  collator_selection_update_origin =
      api.either_of_diverse api.ensure_root
        (api.ensure_xcm (api.is_voice_of_body relay_location staking_admin_body_id))

  -- Of the XCMP queue, and of pallet-xcm.
  unfoldable pub controller_origin : O
  controller_origin = api.ensure_root

  unfoldable pub admin_origin : O
  admin_origin = api.ensure_root

  unfoldable pub local_origin_to_location : L
  local_origin_to_location = api.signed_to_account_id32 relay_network

  unfoldable pub send_xcm_origin : E
  unfolding local_origin_to_location
  send_xcm_origin = api.ensure_xcm_origin local_origin_to_location

  unfoldable pub execute_xcm_origin : E
  unfolding local_origin_to_location
  execute_xcm_origin = api.ensure_xcm_origin local_origin_to_location

abbrev pub is_root : {V : Type 0} → RuntimeOrigin V → Bool
is_root root = true
is_root (signed a) = false
is_root relay = false
is_root (sibling_para id) = false
is_root (xcm_origin l) = false

abbrev pub is_xcm : {V : Type 0} → (Location V → Bool) → RuntimeOrigin V → Bool
is_xcm from root = false
is_xcm from (signed a) = false
is_xcm from relay = false
is_xcm from (sibling_para id) = false
is_xcm from (xcm_origin l) = from l

abbrev pub account_of : {V : Type 0} → Option V → RuntimeOrigin V → Option (Location V)
account_of network root = none
account_of network (signed a) =
    some (record { parents = 0; interior = account_id32 network a ∷ [] })
account_of network relay = none
account_of network (sibling_para id) = none
account_of network (xcm_origin l) = none

-- `Location::here()`
abbrev pub here_location : {V : Type 0} → Location V
here_location = record { parents = 0; interior = [] }

-- The root origin stands for the chain itself.
abbrev pub root_here : {V : Type 0} → RuntimeOrigin V → Option (Location V)
root_here root = some here_location
root_here (signed a) = none
root_here relay = none
root_here (sibling_para id) = none
root_here (xcm_origin l) = none

abbrev pub or_else : {X : Type 0} → Option X → Option X → Option X
or_else (some x) o = some x
or_else none o = o

-- The documented behaviour of the checks; `voice` is the part of a body that is its voice.
pub record IsCheckApi {V O L E : Type 0} (api : CheckApi V O L E) (voice : V) : Type 0 where
  pub try-root : (o : RuntimeOrigin V) → api.try_origin api.ensure_root o ≡ is_root o
  pub try-xcm :
      (from : Location V → Bool) (o : RuntimeOrigin V)
      → api.try_origin (api.ensure_xcm from) o ≡ is_xcm from o
  pub try-either :
      (a b : O) (o : RuntimeOrigin V)
      → api.try_origin (api.either_of_diverse a b) o ≡ api.try_origin a o || api.try_origin b o
  pub voice_iff :
      (prefix l : Location V) (body : BodyId V)
      → (api.is_voice_of_body prefix body l ≡ true) ↔ (
          l ≡ record {
            parents = prefix.parents;
            interior = prefix.interior ++ plurality body voice ∷ [];
          })
  pub convert-signed :
      (network : Option V) (o : RuntimeOrigin V)
      → api.try_convert (api.signed_to_account_id32 network) o ≡ account_of network o
  pub ensure-xcm :
      (c : L) (o : RuntimeOrigin V)
      → api.ensure_origin (api.ensure_xcm_origin c) o ≡ or_else (api.try_convert c o) (root_here o)
