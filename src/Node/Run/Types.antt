-- ===== src/Node/Run/Types.antt =====
-- The arguments of the node's command, and what it does (node/src/cli.rs, node/src/command.rs).
-- The libraries' commands, with their own arguments, are of the opaque type `V`.
use Prim.Native.String.{String}
use subtrate.Base.{ℕ, Bool, Option, List}
use subtrate.Node.Effects.{Outcome}
use subtrate.Frame.Dispatch.{Result}
use subtrate.Runtime.Presets.{PresetApi}
use subtrate.Node.ChainSpec.{ChainSpec}
use subtrate.Node.Command.{CliConfiguration, CliApi}
use subtrate.Node.Service.Types.{ServiceConfig, Effect, ServiceError, ServiceApi}

pub data BenchmarkCmd (V : Type 0) : Type 0 where
  pallet : V → BenchmarkCmd V
  block : V → BenchmarkCmd V
  storage : V → BenchmarkCmd V
  machine : V → BenchmarkCmd V
  -- any other, `Overhead` and `Extrinsic` among them
  unsupported : V → BenchmarkCmd V

pub data Subcommand (V : Type 0) : Type 0 where
  build_spec : V → Subcommand V
  check_block : V → Subcommand V
  export_blocks : V → Subcommand V
  export_state : V → Subcommand V
  import_blocks : V → Subcommand V
  revert : V → Subcommand V
  purge_chain : V → Subcommand V
  export_genesis_head : V → Subcommand V
  export_genesis_wasm : V → Subcommand V
  benchmark : BenchmarkCmd V → Subcommand V

pub record Cli (V : Type 0) : Type 0 where
  pub subcommand : Option (Subcommand V)
  pub run : V
  pub no_hardware_benchmarks : Bool
  pub relay_chain_args : List String

-- `sc_service::Configuration`, by the fields that the code reads.
pub record NodeConfig (V : Type 0) : Type 0 where
  pub chain_spec : ChainSpec
  pub base_path : String
  pub network : V
  pub database : V
  pub database_path : Option String
  pub service : ServiceConfig V

-- A library's command with what it is run on.
pub data Job (V : Type 0) : Type 0 where
  build_spec_job : V → ChainSpec → V → Job V
  check_block_job : V → V → V → Job V
  export_blocks_job : V → V → V → Job V
  export_state_job : V → V → ChainSpec → Job V
  import_blocks_job : V → V → V → Job V
  revert_job : V → V → V → Job V
  -- the configuration of the node and that of the relay chain's node
  purge_chain_job : V → NodeConfig V → V → Job V
  export_genesis_head_job : V → V → Job V
  export_genesis_wasm_job : V → ChainSpec → Job V
  pallet_job : V → ChainSpec → Job V
  block_job : V → V → Job V
  -- the client, the database and the storage
  storage_job : V → NodeConfig V → V → V → V → Job V
  machine_job : V → NodeConfig V → Job V

pub data CliEffect (V : Type 0) : Type 0 where
  job_run : Job V → CliEffect V
  -- `create_dir_all` and `gather_hwbench` with the path of the database
  dir_created : String → CliEffect V
  hwbench_gathered : String → CliEffect V
  collating_logged : Bool → CliEffect V
  service : Effect V → CliEffect V

pub data CliError : Type 0 where
  library : String → CliError
  service_error : ServiceError → CliError
  relay_chain_argument : String → CliError
  -- the parser of the relay chain's arguments has ended the process, which nothing undoes
  process_exit : CliError
  -- an error of the command itself, by its text
  input : String → CliError

pub record RunApi (V : Type 0) : Type 0 where
  -- `create_runner`, by the command or the run arguments: the configuration that the runner has.
  -- It loads a specification by `load_spec`, and panics where that does.
  pub create_runner : V → Outcome String (NodeConfig V)
  pub normalize : V → V
  pub collator_options : V → V
  pub perform : Job V → Result String (Unit {0})
  pub executable_name : String
  pub create_configuration : CliConfiguration V → Result String V
  pub gather_hwbench : String → V
  -- the `chain` argument of a command, empty if there is none
  pub shared_chain : V → String
  pub expose_db : V → V
  pub expose_storage : V → V
  pub presets : PresetApi V
  -- `runtime::WASM_BINARY`
  pub wasm_binary : Option (List ℕ)
  pub from_json_file : String → Result String ChainSpec
  pub shared_base_path : V → Result String (Option String)
  pub cli : CliApi ChainSpec V
  pub node : ServiceApi V
