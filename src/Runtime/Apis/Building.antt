-- ===== src/Runtime/Apis/Building.antt =====
-- The genesis of a chain by the name of its preset (`GenesisBuilder` of runtime/src/apis.rs, over
-- runtime/src/genesis_config_presets.rs).
use Prim.Native.String.{String}
use text.Mathlib.Text.{◌==◌ as ◌str_eq◌}
use mathlib.Core.Option
use subtrate.Base.{ℕ, ◌≡◌, Option, some, List}
use subtrate.Frame.Dispatch.{ok}
use subtrate.Runtime.Genesis.{RuntimeGenesisConfig}
use subtrate.Runtime.Presets.{PresetApi, get_preset}
use subtrate.Runtime.Endowment.{IsBuildable}
use subtrate.Runtime.Apis.{GenesisBuilder}
use subtrate.Runtime.Apis.Requests
use subtrate.Runtime.Apis.Answers.{Libraries}

-- The documented behaviour of the helpers: a given identifier is looked up, and a genesis whose
-- pallets accept their parts is built.
pub record IsGenesisBuilder {S K P : Type 0} (b : GenesisBuilder S K P) : Type 0 where
  pub looked_up : (id : P) (f : P → Option (List ℕ)) → b.get_preset_by (some id) f ≡ f id
  pub builds :
      (config : RuntimeGenesisConfig K) (s : S)
      → IsBuildable config
      → (t : S) × (b.build_state (b.to_json config) s ≡ ok t)

-- Identifiers are the strings that they contain.
pub record IsPresetApi {P : Type 0} (api : PresetApi P) : Type 0 where
  pub into_from : (name : String) → api.try_into (api.from name) ≡ some name
  pub from_into : (id : P) (name : String) → api.try_into id ≡ some name → id ≡ api.from name

module _ {S V W K P A : Type 0} (l : Libraries S V W K P A) where
  abbrev find : P → Option (List ℕ)
  find = get_preset l.helpers l.presets l.builder.to_json
