-- ===== src/Node/Command.antt =====
-- The command line of the node (node/src/cli.rs and node/src/command.rs): which chain
-- specification an identifier means, and the relay chain's part of the command line. Values that
-- the code only passes on are of an opaque type `V`, and errors are opaque texts.
use Prim.Native.String.{String}
use text.Mathlib.Text.{◌==◌ as ◌str_eq◌}
use mathlib.Core.Option
use subtrate.Base.{ℕ, Bool, Option, none, some, List, if◌then◌else◌}
use subtrate.Frame.Dispatch.{Result, ok, err}
use subtrate.Node.ChainSpec.{Extensions, ChainSpec, development_config, local_testnet_config}
use subtrate.Node.Effects.{Outcome, of_result}
use subtrate.Runtime.Presets.{PresetApi}

-- `load_spec`, by the code of the runtime and the reader of a specification in a file.
unfoldable pub load_spec :
    {P : Type 0}
    → PresetApi P
    → Option (List ℕ)
    → (String → Result String ChainSpec)
    → String
    → Outcome String ChainSpec
load_spec api wasm_binary from_json_file id =
    if id str_eq "dev"
    then development_config api wasm_binary
    else (if id str_eq "template-rococo"
        then local_testnet_config api wasm_binary
        else (if id str_eq ""
            then local_testnet_config api wasm_binary
            else (if id str_eq "local"
                then local_testnet_config api wasm_binary
                else of_result (from_json_file id))))

-- The trait `CliConfiguration` of sc-cli, as far as the relay chain's command line defines it.
pub record CliConfiguration (V : Type 0) : Type 0 where
  pub shared_params : V
  pub import_params : Option V
  pub network_params : Option V
  pub keystore_params : Option V
  pub base_path : Result String (Option String)
  pub rpc_addr : ℕ → Result String (Option (List V))
  pub prometheus_config : ℕ → ChainSpec → Result String (Option V)
  pub chain_id : Bool → Result String String
  pub role : Bool → Result String V
  pub transaction_pool : Bool → Result String V
  pub trie_cache_maximum_size : Result String (Option ℕ)
  pub rpc_methods : Result String V
  pub rpc_max_connections : Result String ℕ
  pub rpc_cors : Bool → Result String (Option (List String))
  pub default_heap_pages : Result String (Option ℕ)
  pub force_authoring : Result String Bool
  pub disable_grandpa : Result String Bool
  pub max_runtime_instances : Result String (Option ℕ)
  pub announce_block : Result String Bool
  pub telemetry_endpoints : ChainSpec → Result String (Option V)
  pub node_name : Result String String

pub record RelayChainCli (V : Type 0) : Type 0 where
  pub base : CliConfiguration V
  pub own_chain_id : Option String
  pub own_base_path : Option String

-- The fields of `sc_service::Configuration` that the command line reads.
pub record Configuration (D : Type 0) : Type 0 where
  pub chain_spec : D
  pub base_path : String

-- What the libraries give: the extension of a chain specification of any type `D`, the parser of
-- the relay chain's arguments, which may end the process instead (`none`), the joining of paths.
pub record CliApi (D V : Type 0) : Type 0 where
  pub get_extension : D → Option Extensions
  pub parse_from : List String → Option (CliConfiguration V)
  pub join : String → String → String

-- The ports of `DefaultConfigurationValues`.
abbrev pub p2p_listen_port : ℕ
p2p_listen_port = 30334

abbrev pub rpc_listen_port : ℕ
rpc_listen_port = 9945

abbrev pub prometheus_listen_port : ℕ
prometheus_listen_port = 9616

-- `Option::unwrap_or_default`
abbrev pub unwrap_or_default : Option String → String
unwrap_or_default none = ""
unwrap_or_default (some s) = s

-- `Option::or_else`
abbrev pub or_else : Option String → Option String → Option String
or_else none o = o
or_else (some s) o = some s

module _ {D V : Type 0} (api : CliApi D V) where
  -- `Extensions::try_get`
  unfoldable pub try_get : D → Option Extensions
  try_get chain_spec = api.get_extension chain_spec

  -- The chain of the extension.
  abbrev pub relay_chain_of : Option Extensions → Option String
  relay_chain_of none = none
  relay_chain_of (some e) = some e.relay_chain

  -- `RelayChainCli::new`, unless the parser ends the process.
  unfoldable pub new : Configuration D → List String → Option (RelayChainCli V)
  new para_config relay_chain_args =
      Option.map
        (λ parsed. record {
          base = parsed;
          own_chain_id = relay_chain_of (try_get para_config.chain_spec);
          own_base_path = some (api.join para_config.base_path "polkadot");
        })
        (api.parse_from relay_chain_args)

-- `RelayChainCli::chain_id`
unfoldable pub chain_id : {V : Type 0} → RelayChainCli V → Bool → Result String String
chain_id cli is_dev = elim (cli.base.chain_id is_dev) [
  | ok id ↦ ok (if id str_eq "" then unwrap_or_default cli.own_chain_id else id)
  | err e ↦ err e
]

-- By `SharedParams::base_path`.
module _ {V : Type 0} (shared_base_path : V → Result String (Option String)) where
  -- `RelayChainCli::base_path`, of the shared parameters first.
  unfoldable pub base_path : RelayChainCli V → Result String (Option String)
  base_path cli = elim (shared_base_path cli.base.shared_params) [
    | ok p ↦ ok (or_else p cli.own_base_path)
    | err e ↦ err e
  ]

  -- `impl CliConfiguration for RelayChainCli`
  unfoldable pub relay_chain_configuration : RelayChainCli V → CliConfiguration V
  relay_chain_configuration cli = record {
    shared_params = cli.base.shared_params;
    import_params = cli.base.import_params;
    network_params = cli.base.network_params;
    keystore_params = cli.base.keystore_params;
    base_path = base_path cli;
    rpc_addr = cli.base.rpc_addr;
    prometheus_config = cli.base.prometheus_config;
    chain_id = chain_id cli;
    role = cli.base.role;
    transaction_pool = cli.base.transaction_pool;
    trie_cache_maximum_size = cli.base.trie_cache_maximum_size;
    rpc_methods = cli.base.rpc_methods;
    rpc_max_connections = cli.base.rpc_max_connections;
    rpc_cors = cli.base.rpc_cors;
    default_heap_pages = cli.base.default_heap_pages;
    force_authoring = cli.base.force_authoring;
    disable_grandpa = cli.base.disable_grandpa;
    max_runtime_instances = cli.base.max_runtime_instances;
    announce_block = cli.base.announce_block;
    telemetry_endpoints = cli.base.telemetry_endpoints;
    node_name = cli.base.node_name;
  }
