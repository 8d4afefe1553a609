-- ===== src/Node/ChainSpec.antt =====
-- The chain specifications of the node (node/src/chain_spec.rs). A specification has the values
-- that the code hands to the builder of sc-service.
use Prim.Native.String.{String}
use subtrate.Base.{ℕ, Option, none, some, List, [], ◌∷◌}
use subtrate.Node.Effects.{Outcome, done, panicked}
use subtrate.Runtime.Presets.{PresetApi}

pub record Extensions : Type 0 where
  pub relay_chain : String
  pub para_id : ℕ

pub data ChainType : Type 0 where
  development : ChainType
  local : ChainType

-- A JSON value of the properties.
pub data Value : Type 0 where
  text : String → Value
  number : ℕ → Value

pub record ChainSpec : Type 0 where
  pub code : List ℕ
  pub extensions : Extensions
  pub name : String
  pub id : String
  pub chain_type : ChainType
  pub genesis_preset : String
  pub protocol_id : Option String
  pub properties : Option (List (String × Value))

module _ {P : Type 0} (api : PresetApi P) where
  -- What `development_config` builds with the code of the runtime; its properties never reach the
  -- builder.
  abbrev pub development_spec : List ℕ → ChainSpec
  development_spec code = record {
    code = code;
    extensions = record { relay_chain = "rococo-local"; para_id = 1000 };
    name = "Development";
    id = "dev";
    chain_type = development;
    genesis_preset = api.dev_runtime_preset;
    protocol_id = none;
    properties = none;
  }

  abbrev pub local_testnet_spec : List ℕ → ChainSpec
  local_testnet_spec code = record {
    code = code;
    extensions = record { relay_chain = "rococo-local"; para_id = 1000 };
    name = "Local Testnet";
    id = "local_testnet";
    chain_type = local;
    genesis_preset = api.local_testnet_runtime_preset;
    protocol_id = some "template-local";
    properties = some (
        ("tokenSymbol", text "UNIT")
        ∷ ("tokenDecimals", number 12)
        ∷ ("ss58Format", number 42)
        ∷ []);
  }

  -- By `WASM_BINARY`, which the build of the runtime gives, or does not.
  unfoldable pub development_config : Option (List ℕ) → Outcome String ChainSpec
  development_config none = panicked
  development_config (some code) = done (development_spec code)

  unfoldable pub local_testnet_config : Option (List ℕ) → Outcome String ChainSpec
  local_testnet_config none = panicked
  local_testnet_config (some code) = done (local_testnet_spec code)
