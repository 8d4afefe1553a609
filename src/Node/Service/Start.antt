-- ===== src/Node/Service/Start.antt =====
-- `new_partial`, `start_consensus` and `start_parachain_node` of node/src/service.rs, over the
-- libraries. A clone is the value itself, and the task manager is the log of effects.
use mathlib.Core.Option
use subtrate.Base.{ℕ, ◌%◌, Bool, true, false, not, ◌&&◌, Option, none, some}
use subtrate.Node.Effects.{Act, pure, lift, expect, emit, when, ◌>>=◌, ◌>>◌}
use subtrate.Node.Service.Types.{
  ServiceApi, Running, ServiceConfig, HeapAllocStrategy, default_strategy, static, Executor,
  PartialComponents, resistant, BuildNetworkParams, Network, OffchainWorkerOptions,
  SpawnTasksParams, collator, full_node, StartRelayChainTasksParams, AuraParams, telemetry_worker,
  offchain_workers, hwbench_telemetry, aura, Effect, spawned, spawned_essential,
  relay_chain_interface_built, network_built, tasks_spawned, hwbench_printed, hardware_warned,
  relay_chain_tasks_started, network_started, ServiceError, library, application, from_secs,
}

abbrev pub Startup : Type 0 → Type 0 → Type 0
Startup V A = Act (Effect V) ServiceError A

-- `Option::filter` with a negated test
abbrev filter_not : {V : Type 0} → (V → Bool) → Option V → Option V
filter_not p none = none
filter_not p (some x) = elim (p x) [ true ↦ none | false ↦ some x ]

module _ {V : Type 0} (api : ServiceApi V) where
  -- The telemetry worker and its connection, if there are endpoints.
  unfoldable pub connect_telemetry : Option V → Startup V (Option (V × V))
  connect_telemetry none = pure none
  connect_telemetry (some endpoints) = do
    worker ← lift library (api.new_telemetry_worker 16)
    pure (some (worker, api.new_telemetry (api.worker_handle worker) endpoints))

  -- `h as _`, from `u64` to `u32`
  unfoldable pub heap_strategy : Option ℕ → HeapAllocStrategy
  heap_strategy none = default_strategy
  heap_strategy (some pages) = static (pages % 4294967296)

  unfoldable pub build_executor : ServiceConfig V → Executor V
  unfolding heap_strategy
  build_executor config = record {
    execution_method = config.wasm_method;
    onchain_heap_alloc_strategy = heap_strategy config.default_heap_pages;
    offchain_heap_alloc_strategy = heap_strategy config.default_heap_pages;
    max_runtime_instances = config.max_runtime_instances;
    runtime_cache_size = config.runtime_cache_size;
  }

  -- `task_manager.spawn_handle().spawn("telemetry", None, worker.run())`
  unfoldable pub run_telemetry : Option (V × V) → Startup V (Option V)
  run_telemetry none = pure none
  run_telemetry (some (worker, telemetry)) = do
    emit (spawned "telemetry" (telemetry_worker worker))
    pure (some telemetry)

  unfoldable pub build_import_queue : V → V → ServiceConfig V → Option V → V
  build_import_queue client block_import config telemetry =
      api.fully_verifying_import_queue client block_import config.prometheus_registry telemetry

  unfoldable pub new_partial : ServiceConfig V → Startup V (PartialComponents V)
  unfolding connect_telemetry build_executor run_telemetry build_import_queue
  new_partial config = do
    connected ← connect_telemetry (filter_not api.is_empty config.telemetry_endpoints)
    parts ← lift library (
        api.new_full_parts_record_import config
          (Option.map (λ (c : V × V). api.telemetry_handle c.1) connected) (build_executor config)
          true)
    let worker_handle = Option.map (λ (c : V × V). api.worker_handle c.0) connected
    telemetry ← run_telemetry connected
    let pool =
        api.new_full_pool config.transaction_pool config.is_authority config.prometheus_registry
          parts.client
    let block_import = api.new_block_import parts.client parts.backend
    pure (record {
      backend = parts.backend;
      client = parts.client;
      import_queue =
          build_import_queue parts.client block_import config
            (Option.map api.telemetry_handle telemetry);
      keystore_container = parts.keystore_container;
      transaction_pool = pool;
      block_import = block_import;
      telemetry = telemetry;
      telemetry_worker_handle = worker_handle;
    })

  -- The parameters of the block author, by its key.
  unfoldable pub aura_params : Running V → ℕ → V → AuraParams V
  aura_params r para_id key = record {
    block_import = r.params.block_import;
    para_client = r.params.client;
    para_backend = r.params.backend;
    relay_client = r.relay_chain_interface;
    code_hash_provider = r.params.client;
    keystore = api.keystore r.params.keystore_container;
    collator_key = key;
    para_id = para_id;
    overseer_handle = r.overseer;
    relay_chain_slot_duration = r.slot_duration;
    proposer = record {
      client = r.params.client;
      transaction_pool = r.params.transaction_pool;
      prometheus_registry = r.config.prometheus_registry;
      telemetry = Option.map api.telemetry_handle r.params.telemetry;
    };
    collator_service = record {
      block_status = r.params.client;
      announce_block = r.announce_block;
      runtime_api = r.params.client;
    };
    authoring_duration = 2000;
    reinitialize = false;
  }

  -- `start_consensus`, which does not fail.
  unfoldable pub start_consensus : Running V → ℕ → V → Startup V (Unit {0})
  unfolding aura_params
  start_consensus r para_id key = emit (spawned_essential "aura" (aura (aura_params r para_id key)))

  unfoldable pub offchain_options :
      ServiceConfig V → PartialComponents V → Network V → OffchainWorkerOptions V
  offchain_options config params net = record {
    runtime_api_provider = params.client;
    keystore = some (api.keystore params.keystore_container);
    offchain_db = api.offchain_storage params.backend;
    transaction_pool = some (api.offchain_pool_factory params.transaction_pool);
    network_provider = net.network;
    is_validator = config.is_authority;
    enable_http_requests = false;
  }

  abbrev pub spawn_hwbench : Option V → V → Startup V (Unit {0})
  spawn_hwbench none bench = pure tt
  spawn_hwbench (some telemetry) bench =
      emit (spawned "telemetry_hwbench" (hwbench_telemetry (api.telemetry_handle telemetry) bench))

  -- `if let Some(hwbench) = hwbench { .. }`
  unfoldable pub report_hwbench : Bool → Option V → Option V → Startup V (Unit {0})
  report_hwbench validator telemetry none = pure tt
  report_hwbench validator telemetry (some bench) = do
    emit (hwbench_printed bench)
    when (not (api.check_hardware bench) && validator) (emit hardware_warned)
    spawn_hwbench telemetry bench

  -- `start_parachain_node` from the building of the network to the relay chain's tasks.
  unfoldable pub serve :
      ServiceConfig V → PartialComponents V → V → Option V → ℕ → Option V → Startup V (Running V)
  unfolding offchain_options report_hwbench
  serve config params relay key para_id hwbench = do
    let net_config = api.new_network_configuration config.network config.prometheus_registry
    let validator = config.is_authority
    let import_queue_service = api.import_queue_service params.import_queue
    let network_params : BuildNetworkParams V = record {
      parachain_config = config;
      net_config = net_config;
      client = params.client;
      transaction_pool = params.transaction_pool;
      para_id = para_id;
      relay_chain_interface = relay;
      import_queue = params.import_queue;
      sybil_resistance_level = resistant;
    }
    net ← lift library (api.build_network network_params)
    emit (network_built network_params)
    when config.offchain_worker_enabled (
        emit (
          spawned "offchain-workers-runner"
            (offchain_workers (offchain_options config params net))))
    let tasks : SpawnTasksParams V = record {
      rpc_builder = record { client = params.client; pool = params.transaction_pool };
      client = params.client;
      transaction_pool = params.transaction_pool;
      config = config;
      keystore = api.keystore params.keystore_container;
      backend = params.backend;
      network = net.network;
      sync_service = net.sync_service;
      system_rpc_tx = net.system_rpc_tx;
      tx_handler_controller = net.tx_handler_controller;
      telemetry = params.telemetry;
    }
    lift library (api.spawn_tasks tasks)
    emit (tasks_spawned tasks)
    report_hwbench validator params.telemetry hwbench
    let slot_duration = from_secs 6
    overseer ← lift application (api.overseer_handle relay)
    let relay_tasks : StartRelayChainTasksParams V = record {
      client = params.client;
      announce_block = net.sync_service;
      para_id = para_id;
      relay_chain_interface = relay;
      da_recovery_profile = elim validator [ true ↦ collator | false ↦ full_node ];
      import_queue = import_queue_service;
      relay_chain_slot_duration = slot_duration;
      recovery_handle = overseer;
      sync_service = net.sync_service;
    }
    lift library (api.start_relay_chain_tasks relay_tasks)
    emit (relay_chain_tasks_started relay_tasks)
    pure (record {
      config = config;
      params = params;
      relay_chain_interface = relay;
      collator_key = key;
      announce_block = net.sync_service;
      slot_duration = slot_duration;
      overseer = overseer;
    })

  -- `start_parachain_node` up to the relay chain's tasks.
  unfoldable pub bring_up : ServiceConfig V → V → V → ℕ → Option V → Startup V (Running V)
  unfolding new_partial serve
  bring_up given polkadot_config collator_options para_id hwbench = do
    let config = api.prepare_node_config given
    params ← new_partial config
    (relay, key) ← lift application (
        api.build_relay_chain_interface polkadot_config config params.telemetry_worker_handle
          collator_options hwbench)
    emit (relay_chain_interface_built relay)
    serve config params relay key para_id hwbench

  -- `if validator { start_consensus(..)? }`
  unfoldable pub author : Running V → ℕ → Startup V (Unit {0})
  unfolding start_consensus
  author r para_id =
      when r.config.is_authority (do key ← expect r.collator_key; start_consensus r para_id key)

  -- `start_parachain_node`, which returns the client beside the task manager.
  unfoldable pub start_parachain_node : ServiceConfig V → V → V → ℕ → Option V → Startup V V
  unfolding bring_up author
  start_parachain_node config polkadot_config collator_options para_id hwbench = do
    r ← bring_up config polkadot_config collator_options para_id hwbench
    author r para_id
    emit network_started
    pure r.params.client
