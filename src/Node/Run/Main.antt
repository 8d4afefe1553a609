-- ===== src/Node/Run/Main.antt =====
-- `run` of node/src/command.rs, over the libraries. `construct_async_run!` and the runner's
-- `sync_run` and `run_node_until_exit` hand the configuration to the body.
use Prim.Native.String.{String}
use mathlib.Core.Option
use subtrate.Base.{Bool, true, false, Option, none, some, ◌∷◌}
use subtrate.Node.Effects.{Act, pure, raise, lift, attempt, ok_or, emit, within, ◌>>=◌, ◌>>◌}
use subtrate.Node.ChainSpec.{Extensions}
use subtrate.Node.Command.{load_spec, try_get, new, relay_chain_configuration}
use subtrate.Node.Service.Types.{PartialComponents}
use subtrate.Node.Service.Start.{new_partial, start_parachain_node}
use subtrate.Node.Run.Types.{
  BenchmarkCmd, pallet, block, storage, machine, unsupported, Subcommand, build_spec, check_block,
  export_blocks, export_state, import_blocks, revert, purge_chain, export_genesis_head,
  export_genesis_wasm, benchmark, Cli, NodeConfig, Job, build_spec_job, check_block_job,
  export_blocks_job, export_state_job, import_blocks_job, revert_job, purge_chain_job,
  export_genesis_head_job, export_genesis_wasm_job, pallet_job, block_job, storage_job, machine_job,
  CliEffect, job_run, dir_created, hwbench_gathered, collating_logged, service, CliError, library,
  service_error, relay_chain_argument, process_exit, input, RunApi,
}

abbrev pub Command : Type 0 → Type 0 → Type 0
Command V A = Act (CliEffect V) CliError A

-- `(!cli.no_hardware_benchmarks).then_some(..).flatten()`
abbrev pub unless : {V : Type 0} → Bool → Option V → Option V
unless true o = none
unless false o = o

module _ {V : Type 0} (api : RunApi V) where
  abbrev pub runner : V → Command V (NodeConfig V)
  runner cmd = attempt library (api.create_runner cmd)

  abbrev pub perform : Job V → Command V (Unit {0})
  perform job = emit (job_run job) >> lift library (api.perform job)

  abbrev pub partials : NodeConfig V → Command V (PartialComponents V)
  partials config = within service service_error (new_partial api.node config.service)

  -- `RelayChainCli::new` on the arguments after `--`, and its configuration.
  unfoldable pub polkadot_config : Cli V → NodeConfig V → Command V V
  polkadot_config cli config = do
    polkadot_cli ←
        ok_or
          (new api.cli (record { chain_spec = config.chain_spec; base_path = config.base_path })
            (api.executable_name ∷ cli.relay_chain_args))
          process_exit
    lift relay_chain_argument
        (api.create_configuration (relay_chain_configuration api.shared_base_path polkadot_cli))

  -- `feature` is `cfg!(feature = "runtime-benchmarks")`.
  unfoldable pub run_benchmark : Bool → BenchmarkCmd V → NodeConfig V → Command V (Unit {0})
  run_benchmark true (pallet cmd) config = perform (pallet_job cmd config.chain_spec)
  run_benchmark false (pallet cmd) config = raise (
      input
        "Benchmarking wasn't enabled when building the node. You can enable it with `--features runtime-benchmarks`.")
  run_benchmark feature (block cmd) config = do
    parts ← partials config
    perform (block_job cmd parts.client)
  run_benchmark false (storage cmd) config =
      raise (input "Compile with --features=runtime-benchmarks to enable storage benchmarks.")
  run_benchmark true (storage cmd) config = do
    parts ← partials config
    perform (
        storage_job cmd config parts.client (api.expose_db parts.backend)
          (api.expose_storage parts.backend))
  run_benchmark feature (machine cmd) config = perform (machine_job cmd config)
  run_benchmark feature (unsupported cmd) config =
      raise (input "Benchmarking sub-command unsupported")

  -- The command by which the runner of a benchmark is created.
  abbrev pub benchmark_arguments : BenchmarkCmd V → V
  benchmark_arguments (pallet cmd) = cmd
  benchmark_arguments (block cmd) = cmd
  benchmark_arguments (storage cmd) = cmd
  benchmark_arguments (machine cmd) = cmd
  benchmark_arguments (unsupported cmd) = cmd

  unfoldable pub run_subcommand : Bool → Cli V → Subcommand V → Command V (Unit {0})
  unfolding polkadot_config run_benchmark
  run_subcommand feature cli (build_spec cmd) = do
    config ← runner cmd
    perform (build_spec_job cmd config.chain_spec config.network)
  run_subcommand feature cli (check_block cmd) = do
    config ← runner cmd
    parts ← partials config
    perform (check_block_job cmd parts.client parts.import_queue)
  run_subcommand feature cli (export_blocks cmd) = do
    config ← runner cmd
    parts ← partials config
    perform (export_blocks_job cmd parts.client config.database)
  run_subcommand feature cli (export_state cmd) = do
    config ← runner cmd
    parts ← partials config
    perform (export_state_job cmd parts.client config.chain_spec)
  run_subcommand feature cli (import_blocks cmd) = do
    config ← runner cmd
    parts ← partials config
    perform (import_blocks_job cmd parts.client parts.import_queue)
  run_subcommand feature cli (revert cmd) = do
    config ← runner cmd
    parts ← partials config
    perform (revert_job cmd parts.client parts.backend)
  run_subcommand feature cli (purge_chain cmd) = do
    config ← runner cmd
    polkadot ← polkadot_config cli config
    perform (purge_chain_job cmd config polkadot)
  run_subcommand feature cli (export_genesis_head cmd) = do
    config ← runner cmd
    parts ← partials config
    perform (export_genesis_head_job cmd parts.client)
  run_subcommand feature cli (export_genesis_wasm cmd) = do
    config ← runner cmd
    spec ←
        attempt library
          (load_spec api.presets api.wasm_binary api.from_json_file (api.shared_chain cmd))
    perform (export_genesis_wasm_job cmd spec)
  run_subcommand feature cli (benchmark cmd) = do
    config ← runner (benchmark_arguments cmd)
    run_benchmark feature cmd config

  -- `config.database.path().map(..)`, which is the argument of `then_some` and so is evaluated
  -- whatever the flag says.
  unfoldable pub gather : Option String → Command V (Option V)
  gather none = pure none
  gather (some path) = do
    emit (dir_created path)
    emit (hwbench_gathered path)
    pure (some (api.gather_hwbench path))

  -- What follows the benchmark, with the options of the collator, in `run_node_until_exit`.
  unfoldable pub launch : Cli V → NodeConfig V → Option V → Command V (Unit {0})
  unfolding polkadot_config try_get
  launch cli config hwbench = do
    para_id ←
        ok_or (Option.map (λ (e : Extensions). e.para_id) (try_get api.cli config.chain_spec))
          (input "Could not find parachain ID in chain-spec.")
    polkadot ← polkadot_config cli config
    emit (collating_logged config.service.is_authority)
    within service service_error (
        start_parachain_node api.node config.service polkadot (api.collator_options cli.run) para_id
          hwbench)
    pure tt

  unfoldable pub run_node : Cli V → Command V (Unit {0})
  unfolding gather launch
  run_node cli = do
    config ← runner (api.normalize cli.run)
    gathered ← gather config.database_path
    launch cli config (unless cli.no_hardware_benchmarks gathered)

  unfoldable pub run : Bool → Cli V → Command V (Unit {0})
  unfolding run_subcommand run_node
  run feature cli = elim cli.subcommand [
    | some cmd ↦ run_subcommand feature cli cmd
    | none ↦ run_node cli
  ]
