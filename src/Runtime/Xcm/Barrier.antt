-- ===== src/Runtime/Xcm/Barrier.antt =====
-- The barrier for XCM messages (runtime/src/configs/xcm_config.rs), from the barriers of
-- xcm-builder. A message, with its weights and properties, is of the opaque type `M`.
use subtrate.Base.{ℕ, ◌==◌, Bool, true, false, ◌&&◌, List, [], ◌∷◌, Option}
use subtrate.Frame.Dispatch.{AccountId}

-- The bodies and junctions of XCM, as far as the code names them.
pub data BodyId (V : Type 0) : Type 0 where
  executive : BodyId V
  defense : BodyId V
  another_body : V → BodyId V

pub data Junction (V : Type 0) : Type 0 where
  parachain : ℕ → Junction V
  -- the network, if one is given, and the account
  account_id32 : Option V → AccountId → Junction V
  -- the body and its part
  plurality : BodyId V → V → Junction V
  another_junction : V → Junction V

pub record Location (V : Type 0) : Type 0 where
  pub parents : ℕ
  pub interior : List (Junction V)

-- The barriers of the libraries, of type `B`, and when they admit a message from a location.
pub record BarrierApi (V M B : Type 0) : Type 0 where
  pub admits : B → Location V → M → Bool
  pub trailing_set_topic_as_id : B → B
  pub deny_then_try : B → B → B
  pub deny_reserve_transfer_to_relay_chain : B
  pub either : B → B → B
  pub take_weight_credit : B
  pub with_computed_origin : B → List (Junction V) → ℕ → B
  pub allow_top_level_paid_execution_from : (Location V → Bool) → B
  pub allow_explicit_unpaid_execution_from : (Location V → Bool) → B

-- `RelayLocation`
abbrev pub relay_location : {V : Type 0} → Location V
relay_location = record { parents = 1; interior = [] }

-- `UniversalLocation`, by the identifier of the parachain.
abbrev pub universal_location : {V : Type 0} → ℕ → List (Junction V)
universal_location para_id = parachain para_id ∷ []

abbrev pub none_or_executive : {V : Type 0} → List (Junction V) → Bool
none_or_executive [] = true
none_or_executive (plurality executive part ∷ []) = true
none_or_executive (plurality executive part ∷ j ∷ js) = false
none_or_executive (plurality defense part ∷ js) = false
none_or_executive (plurality (another_body b) part ∷ js) = false
none_or_executive (parachain id ∷ js) = false
none_or_executive (account_id32 n a ∷ js) = false
none_or_executive (another_junction v ∷ js) = false

-- `ParentOrParentsExecutivePlurality::contains`
unfoldable pub contains : {V : Type 0} → Location V → Bool
contains location = (location.parents == 1) && none_or_executive location.interior

-- `Everything::contains`
abbrev everything : {V : Type 0} → Location V → Bool
everything location = true

unfoldable pub barrier : {V M B : Type 0} → BarrierApi V M B → ℕ → B
barrier api para_id = api.trailing_set_topic_as_id (
    api.deny_then_try api.deny_reserve_transfer_to_relay_chain (
      api.either api.take_weight_credit (
        api.with_computed_origin
          (api.either (api.allow_top_level_paid_execution_from everything)
            (api.allow_explicit_unpaid_execution_from contains))
          (universal_location para_id) 8)))
