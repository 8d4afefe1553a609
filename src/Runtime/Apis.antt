-- ===== src/Runtime/Apis.antt =====
-- Of the runtime APIs (runtime/src/apis.rs) those with a part of the runtime's own: the slots of
-- Aura, the hook of the consensus, the genesis builder and the dispatch of benchmarks. What FRAME
-- does for them is a parameter. Apis/Answers puts them together with the calls that are only handed
-- to FRAME.
pub mod Requests
pub mod Answers
pub mod Charges
pub mod Building
pub mod Measuring
mod Examples
use Prim.Native.String.{String}
use subtrate.Base.{ℕ, Bool, Option, List, [], ◌∷◌}
use subtrate.Frame.Dispatch.{Result, ok, err}
use subtrate.Runtime.Constants.{
  slot_duration, relay_chain_slot_duration_millis, block_processing_velocity,
  unincluded_segment_capacity,
}
use subtrate.Runtime.Genesis.{RuntimeGenesisConfig, GenesisHelpers}
use subtrate.Runtime.Presets.{PresetApi, get_preset, preset_names}

-- `SlotDuration::from_millis` is the number of milliseconds.
abbrev pub impl_slot_duration : ℕ
impl_slot_duration = slot_duration

-- `FixedVelocityConsensusHook` by its three parameters, and the hook of the runtime; `S` is the
-- state of the chain and `H` the type of hashes.
module _ {S H : Type 0} (fixed_velocity : ℕ → ℕ → ℕ → S → H → ℕ → Bool) where
  abbrev pub consensus_hook : S → H → ℕ → Bool
  consensus_hook =
      fixed_velocity relay_chain_slot_duration_millis block_processing_velocity
        unincluded_segment_capacity

  unfoldable pub impl_can_build_upon : S → H → ℕ → Bool
  impl_can_build_upon state included_hash slot = consensus_hook state included_hash slot

-- The helpers for the genesis, and the JSON of a configuration.
pub record GenesisBuilder (S K P : Type 0) : Type 0 where
  pub build_state : List ℕ → S → Result String S
  pub get_preset_by : Option P → (P → Option (List ℕ)) → Option (List ℕ)
  pub to_json : RuntimeGenesisConfig K → List ℕ

module _ {S K P : Type 0} (b : GenesisBuilder S K P) (g : GenesisHelpers K)
    (api : PresetApi P) where
  abbrev pub build_state_api : List ℕ → S → Result String S
  build_state_api config = b.build_state config

  unfoldable pub get_preset_api : Option P → Option (List ℕ)
  unfolding get_preset
  get_preset_api id = b.get_preset_by id (get_preset g api b.to_json)

  unfoldable pub preset_names_api : List P
  unfolding preset_names
  preset_names_api = preset_names api

-- The end of `dispatch_benchmark`, by the batches that `add_benchmarks!` has collected.
abbrev pub dispatched_batches : {B : Type 0} → List B → Result String (List B)
dispatched_batches [] = err "Benchmark not found for this pallet."
dispatched_batches (batch ∷ batches) = ok (batch ∷ batches)
