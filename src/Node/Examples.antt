-- ===== src/Node/Examples.antt =====
-- The theorems on the service and on the command (node/src/service.rs, node/src/command.rs) at
-- libraries that always succeed, on a collator and on a subcommand.
use Prim.Native.String.{◌++◌ as ◌string_append◌}
use subtrate.Base.{ℕ, ◌≡◌, refl, ◌≢◌, inr, true, false, Option, some, none, [], ◌∷◌, arith}
use subtrate.Frame.Dispatch.{ok, err}
use subtrate.Runtime.Presets.{PresetApi}
use subtrate.Node.ChainSpec.{local_testnet_config, local_testnet_spec}
use subtrate.Node.Command.{load_spec, CliConfiguration}
use subtrate.Node.Effects.{done, panicked}
use subtrate.Node.Service.Types.{ServiceConfig, ServiceApi}
use subtrate.Node.Service.Start.{start_parachain_node}
use subtrate.Node.Service.Order.{StartsAs, start-StartsAs}
use subtrate.Node.Service.Panics.{start-ne-panicked}
use subtrate.Node.Run.Types.{Cli, NodeConfig, RunApi, revert}
use subtrate.Node.Run.Main.{run}
use subtrate.Node.Run.Subcommands.{RunsAs, IsBuilt, run-RunsAs}
use subtrate.Node.Run.Node.{NodeRunsAs, run-NodeRunsAs}
use subtrate.Node.Run.Genesis.{RunsForGenesis, run-RunsForGenesis}
use subtrate.Node.Run.Success.{IsSuccessfulRun, WorkOf, run-done}
use subtrate.Node.Service.Parts.{StartedWith}
use subtrate.Node.Service.Success.{IsSuccessful, start-done}
use subtrate.Runtime.Genesis.{GenesisHelpers}

abbrev presets : PresetApi ℕ
presets = record {
  try_into = λ s. some "local_testnet";
  from = λ s. 0;
  dev_runtime_preset = "development";
  local_testnet_runtime_preset = "local_testnet";
}

abbrev collator : ServiceConfig ℕ
collator = record {
  telemetry_endpoints = some 1;
  default_heap_pages = some 2048;
  wasm_method = 2;
  max_runtime_instances = 8;
  runtime_cache_size = 2;
  transaction_pool = 3;
  is_authority = true;
  prometheus_registry = none;
  network = 4;
  offchain_worker_enabled = true;
}

abbrev services : ServiceApi ℕ
services = record {
  is_empty = λ endpoints. false;
  new_telemetry_worker = λ n. ok n;
  worker_handle = λ w. w;
  new_telemetry = λ handle endpoints. endpoints;
  telemetry_handle = λ t. t;
  new_full_parts_record_import = λ config telemetry executor record_import.
      ok (record { client = 10; backend = 11; keystore_container = 12 });
  new_full_pool = λ options validator registry client. 13;
  new_block_import = λ client backend. 14;
  fully_verifying_import_queue = λ client block_import registry telemetry. 15;
  import_queue_service = λ queue. queue;
  prepare_node_config = λ config. config;
  new_network_configuration = λ network registry. network;
  build_relay_chain_interface = λ polkadot config telemetry options bench. ok (20, some 21);
  build_network = λ params.
      ok (record {
        network = 30;
        system_rpc_tx = 31;
        tx_handler_controller = 32;
        sync_service = 33;
      });
  keystore = λ container. container;
  offchain_storage = λ backend. backend;
  offchain_pool_factory = λ pool. pool;
  spawn_tasks = λ params. ok tt;
  check_hardware = λ bench. true;
  overseer_handle = λ relay. ok 40;
  start_relay_chain_tasks = λ params. ok tt;
}

start-StartsAs_example :
    StartsAs collator 2000 (start_parachain_node services collator 5 6 2000 (some 7) [])
start-StartsAs_example = start-StartsAs services collator 5 6 2000 (some 7)

keyed :
    (polkadot : ℕ) (config : ServiceConfig ℕ) (t : Option ℕ) (options : ℕ) (bench : Option ℕ)
    → (relay : ℕ) (key : Option ℕ)
    → services.build_relay_chain_interface polkadot config t options bench ≡ ok (relay, key)
    → config.is_authority ≡ true
    → key ≢ none
keyed polkadot config t options bench relay key built authority missing = ground arith

start-ne-panicked_example :
    (start_parachain_node services collator 5 6 2000 (some 7) []).0 ≢ panicked
start-ne-panicked_example = start-ne-panicked services keyed collator 5 6 2000 (some 7) []

abbrev arguments : CliConfiguration ℕ
arguments = record {
  shared_params = 0;
  import_params = none;
  network_params = none;
  keystore_params = none;
  base_path = ok none;
  rpc_addr = λ port. ok none;
  prometheus_config = λ port spec. ok none;
  chain_id = λ is_dev. ok "";
  role = λ is_dev. ok 0;
  transaction_pool = λ is_dev. ok 0;
  trie_cache_maximum_size = ok none;
  rpc_methods = ok 0;
  rpc_max_connections = ok 100;
  rpc_cors = λ is_dev. ok none;
  default_heap_pages = ok none;
  force_authoring = ok false;
  disable_grandpa = ok false;
  max_runtime_instances = ok none;
  announce_block = ok false;
  telemetry_endpoints = λ spec. ok none;
  node_name = ok "node";
}

abbrev node_config : NodeConfig ℕ
node_config = record {
  chain_spec = local_testnet_spec presets (0 ∷ []);
  base_path = "/data";
  network = 4;
  database = 50;
  database_path = some "/data/db";
  service = collator;
}

abbrev api : RunApi ℕ
api = record {
  create_runner = λ cmd. done node_config;
  normalize = λ arguments. arguments;
  collator_options = λ arguments. arguments;
  perform = λ job. ok tt;
  executable_name = "parachain-template-node";
  create_configuration = λ configuration. ok 60;
  gather_hwbench = λ path. 61;
  shared_chain = λ cmd. "";
  expose_db = λ backend. backend;
  expose_storage = λ backend. backend;
  presets = presets;
  wasm_binary = some (0 ∷ []);
  from_json_file = λ path. err path;
  shared_base_path = λ params. ok none;
  cli = record {
    get_extension = λ spec. some spec.extensions;
    parse_from = λ args. some arguments;
    join = λ p q. p string_append "/" string_append q;
  };
  node = services;
}

abbrev reverting : Cli ℕ
reverting = record {
  subcommand = some (revert 70);
  run = 71;
  no_hardware_benchmarks = false;
  relay_chain_args = [];
}

api-IsBuilt : IsBuilt api
api-IsBuilt = record { code = (0 ∷ [], refl); runs = λ cmd h. ground arith }

run-RunsAs_example : RunsAs api (revert 70) (run api false reverting [])
run-RunsAs_example = run-RunsAs api api-IsBuilt false reverting (revert 70) refl

abbrev unmeasured : Cli ℕ
unmeasured = record {
  subcommand = none;
  run = 71;
  no_hardware_benchmarks = true;
  relay_chain_args = [];
}

run-NodeRunsAs_example : NodeRunsAs api node_config (run api false unmeasured [])
run-NodeRunsAs_example = run-NodeRunsAs api false unmeasured node_config refl refl

abbrev helpers : GenesisHelpers ℕ
helpers = record {
  get_account_id_from_seed = λ s. 1;
  get_collator_keys_from_seed = λ s. 2;
  xcm_version = 4;
}

loaded :
    load_spec presets api.wasm_binary api.from_json_file "local"
    ≡ done (local_testnet_spec presets (0 ∷ []))
unfolding load_spec local_testnet_config
loaded = refl

run-RunsForGenesis_example : RunsForGenesis api helpers node_config (run api false unmeasured [])
run-RunsForGenesis_example =
    run-RunsForGenesis api helpers false unmeasured node_config "local" (inr (inr (inr refl)))
      loaded (λ spec. refl) refl refl

services-IsSuccessful : IsSuccessful services
services-IsSuccessful = record {
  new_telemetry_worker-ok = λ n. (n, refl);
  new_full_parts-ok = λ config t x b. (_, refl);
  relay_chain-ok = λ polkadot config t options bench. (_, refl);
  keyed = keyed;
  build_network-ok = λ p. (_, refl);
  spawn_tasks-ok = λ p. (tt, refl);
  overseer-ok = λ relay. (40, refl);
  relay_chain_tasks-ok = λ p. (tt, refl);
}

start-done_example :
    (client : ℕ) × StartedWith client collator 2000
      (start_parachain_node services collator 5 6 2000 (some 7) [])
start-done_example = start-done services services-IsSuccessful collator 5 6 2000 (some 7)

-- The same, where every file holds the local specification.
abbrev reading : RunApi ℕ
reading = record api { from_json_file = λ path. ok (local_testnet_spec presets (0 ∷ [])) }

reading-IsSuccessfulRun : IsSuccessfulRun reading
reading-IsSuccessfulRun = record {
  code = (0 ∷ [], refl);
  create_runner-done = λ cmd. (node_config, refl);
  parse_from-some = λ args. (arguments, refl);
  perform-ok = λ job. (tt, refl);
  create_configuration-ok = λ c. (60, refl);
  from_json_file-ok = λ path. (local_testnet_spec presets (0 ∷ []), refl);
  extended = λ spec. (spec.extensions, refl);
  node-IsSuccessful = services-IsSuccessful;
}

run-done_example :
    ((run reading false unmeasured []).0 ≡ done tt)
    × WorkOf reading unmeasured none (run reading false unmeasured []).1
run-done_example = run-done reading reading-IsSuccessfulRun false unmeasured tt
