-- ===== src/Node/Service/Types.antt =====
-- What the service hands to the libraries (node/src/service.rs): values of the libraries' types,
-- which the code only passes on, are of one opaque type `V`; durations are in milliseconds.
use Prim.Native.String.{String}
use subtrate.Base.{ℕ, ◌*◌, Bool, Option}
use subtrate.Frame.Dispatch.{Result}

-- The fields of `sc_service::Configuration` that the service reads.
pub record ServiceConfig (V : Type 0) : Type 0 where
  pub telemetry_endpoints : Option V
  pub default_heap_pages : Option ℕ
  pub wasm_method : V
  pub max_runtime_instances : V
  pub runtime_cache_size : V
  pub transaction_pool : V
  pub is_authority : Bool
  pub prometheus_registry : Option V
  pub network : V
  pub offchain_worker_enabled : Bool

pub data HeapAllocStrategy : Type 0 where
  default_strategy : HeapAllocStrategy
  static : ℕ → HeapAllocStrategy

pub record Executor (V : Type 0) : Type 0 where
  pub execution_method : V
  pub onchain_heap_alloc_strategy : HeapAllocStrategy
  pub offchain_heap_alloc_strategy : HeapAllocStrategy
  pub max_runtime_instances : V
  pub runtime_cache_size : V

-- What `new_full_parts_record_import` returns, but the task manager, which is the log.
pub record Parts (V : Type 0) : Type 0 where
  pub client : V
  pub backend : V
  pub keystore_container : V

pub record PartialComponents (V : Type 0) : Type 0 where
  pub backend : V
  pub client : V
  pub import_queue : V
  pub keystore_container : V
  pub transaction_pool : V
  pub block_import : V
  pub telemetry : Option V
  pub telemetry_worker_handle : Option V

pub data SybilResistance : Type 0 where
  resistant : SybilResistance
  unresistant : SybilResistance

pub record BuildNetworkParams (V : Type 0) : Type 0 where
  pub parachain_config : ServiceConfig V
  pub net_config : V
  pub client : V
  pub transaction_pool : V
  pub para_id : ℕ
  pub relay_chain_interface : V
  pub import_queue : V
  pub sybil_resistance_level : SybilResistance

pub record Network (V : Type 0) : Type 0 where
  pub network : V
  pub system_rpc_tx : V
  pub tx_handler_controller : V
  pub sync_service : V

pub record OffchainWorkerOptions (V : Type 0) : Type 0 where
  pub runtime_api_provider : V
  pub keystore : Option V
  pub offchain_db : V
  pub transaction_pool : Option V
  pub network_provider : V
  pub is_validator : Bool
  pub enable_http_requests : Bool

pub record FullDeps (V : Type 0) : Type 0 where
  pub client : V
  pub pool : V

pub record SpawnTasksParams (V : Type 0) : Type 0 where
  -- `create_full` over these, when the builder is called
  pub rpc_builder : FullDeps V
  pub client : V
  pub transaction_pool : V
  pub config : ServiceConfig V
  pub keystore : V
  pub backend : V
  pub network : V
  pub sync_service : V
  pub system_rpc_tx : V
  pub tx_handler_controller : V
  pub telemetry : Option V

pub data DaRecoveryProfile : Type 0 where
  collator : DaRecoveryProfile
  full_node : DaRecoveryProfile

pub record StartRelayChainTasksParams (V : Type 0) : Type 0 where
  pub client : V
  -- the sync service whose `announce_block` is called
  pub announce_block : V
  pub para_id : ℕ
  pub relay_chain_interface : V
  pub da_recovery_profile : DaRecoveryProfile
  pub import_queue : V
  pub relay_chain_slot_duration : ℕ
  pub recovery_handle : V
  pub sync_service : V

pub record ProposerFactory (V : Type 0) : Type 0 where
  pub client : V
  pub transaction_pool : V
  pub prometheus_registry : Option V
  pub telemetry : Option V

pub record CollatorService (V : Type 0) : Type 0 where
  pub block_status : V
  pub announce_block : V
  pub runtime_api : V

pub record AuraParams (V : Type 0) : Type 0 where
  pub block_import : V
  pub para_client : V
  pub para_backend : V
  pub relay_client : V
  -- the client whose `code_at` is hashed
  pub code_hash_provider : V
  pub keystore : V
  pub collator_key : V
  pub para_id : ℕ
  pub overseer_handle : V
  pub relay_chain_slot_duration : ℕ
  pub proposer : ProposerFactory V
  pub collator_service : CollatorService V
  pub authoring_duration : ℕ
  pub reinitialize : Bool

pub data Task (V : Type 0) : Type 0 where
  -- the run of a telemetry worker
  telemetry_worker : V → Task V
  offchain_workers : OffchainWorkerOptions V → Task V
  -- a telemetry handle and a hardware benchmark
  hwbench_telemetry : V → V → Task V
  aura : AuraParams V → Task V

-- What a node starts or prints, when it has succeeded.
pub data Effect (V : Type 0) : Type 0 where
  spawned : String → Task V → Effect V
  spawned_essential : String → Task V → Effect V
  relay_chain_interface_built : V → Effect V
  network_built : BuildNetworkParams V → Effect V
  tasks_spawned : SpawnTasksParams V → Effect V
  hwbench_printed : V → Effect V
  hardware_warned : Effect V
  relay_chain_tasks_started : StartRelayChainTasksParams V → Effect V
  network_started : Effect V

-- `sc_service::Error`, from a library's error, which is a text here.
pub data ServiceError : Type 0 where
  library : String → ServiceError
  application : String → ServiceError

-- `Duration::from_secs`
abbrev pub from_secs : ℕ → ℕ
from_secs n = n * 1000

-- What `start_parachain_node` has at hand when it comes to the consensus.
pub record Running (V : Type 0) : Type 0 where
  pub config : ServiceConfig V
  pub params : PartialComponents V
  pub relay_chain_interface : V
  pub collator_key : Option V
  pub announce_block : V
  pub slot_duration : ℕ
  pub overseer : V

-- What the libraries do with these.
pub record ServiceApi (V : Type 0) : Type 0 where
  pub is_empty : V → Bool
  pub new_telemetry_worker : ℕ → Result String V
  pub worker_handle : V → V
  pub new_telemetry : V → V → V
  pub telemetry_handle : V → V
  pub new_full_parts_record_import :
      ServiceConfig V → Option V → Executor V → Bool → Result String (Parts V)
  pub new_full_pool : V → Bool → Option V → V → V
  pub new_block_import : V → V → V
  pub fully_verifying_import_queue : V → V → Option V → Option V → V
  pub import_queue_service : V → V
  pub prepare_node_config : ServiceConfig V → ServiceConfig V
  pub new_network_configuration : V → Option V → V
  -- of the polkadot configuration, the node's, the telemetry, the collator options, the benchmark
  pub build_relay_chain_interface :
      V → ServiceConfig V → Option V → V → Option V → Result String (V × Option V)
  pub build_network : BuildNetworkParams V → Result String (Network V)
  pub keystore : V → V
  pub offchain_storage : V → V
  pub offchain_pool_factory : V → V
  pub spawn_tasks : SpawnTasksParams V → Result String (Unit {0})
  -- whether `check_hardware` finds nothing missing
  pub check_hardware : V → Bool
  pub overseer_handle : V → Result String V
  pub start_relay_chain_tasks : StartRelayChainTasksParams V → Result String (Unit {0})
