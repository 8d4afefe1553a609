-- ===== src/Node/Run/Success.antt =====
-- The command does its work when the libraries succeed (`run` of node/src/command.rs).
use Prim.Native.String.{String}
use mathlib.Core.Option
use mathlib.Core.Path.{subst}
use subtrate.Base.{
  arith, ℕ, ◌≡◌, refl, sym, ap, ◌∙◌, inl, inr, Bool, true, false, Option, none, some, List, [], ◌∷◌,
  ◌++◌, map,
}
use subtrate.Frame.Dispatch.{ok}
use subtrate.Node.Effects.{Outcome, done, failed, panicked, Act, within, convert}
use subtrate.Node.Emits.{All}
use subtrate.Node.Finishes.{Finishes, finishes_rules}
use subtrate.Node.ChainSpec.{Extensions, ChainSpec}
use subtrate.Node.Command.{CliConfiguration, Configuration, RelayChainCli, load_spec, try_get, new}
use subtrate.Node.Loading.{load_spec-done}
use subtrate.Node.Service.Types.{Effect, ServiceError}
use subtrate.Node.Service.Order.{StartsAs}
use subtrate.Node.Service.Start.{new_partial}
use subtrate.Node.Service.Success.{IsSuccessful, new_partial-Finishes, start-Finishes}
use subtrate.Node.Run.Subcommands.{carries_out, IsTelemetry, IsBuilt, run-RunsAs}
use subtrate.Node.Run.Node.{IsOpening, started, run-NodeRunsAs}
use subtrate.Node.Run.Types.{
  BenchmarkCmd, pallet, block, storage, machine, unsupported, Subcommand, build_spec, check_block,
  export_blocks, export_state, import_blocks, revert, purge_chain, export_genesis_head,
  export_genesis_wasm, benchmark, Cli, NodeConfig, Job, CliEffect, job_run, service, service_error,
  RunApi,
}
use subtrate.Node.Run.Main.{
  partials, polkadot_config, run_benchmark, run_subcommand, gather, launch, run_node, run,
}

-- A subcommand that the build of the node has: `feature` is that for benchmarks.
abbrev pub IsOffered : {V : Type 0} → Bool → Option (Subcommand V) → Type 0
IsOffered feature none = Unit
IsOffered feature (some (build_spec c)) = Unit
IsOffered feature (some (check_block c)) = Unit
IsOffered feature (some (export_blocks c)) = Unit
IsOffered feature (some (export_state c)) = Unit
IsOffered feature (some (import_blocks c)) = Unit
IsOffered feature (some (revert c)) = Unit
IsOffered feature (some (purge_chain c)) = Unit
IsOffered feature (some (export_genesis_head c)) = Unit
IsOffered feature (some (export_genesis_wasm c)) = Unit
IsOffered feature (some (benchmark (pallet c))) = feature ≡ true
IsOffered feature (some (benchmark (block c))) = Unit
IsOffered feature (some (benchmark (storage c))) = feature ≡ true
IsOffered feature (some (benchmark (machine c))) = Unit
IsOffered feature (some (benchmark (unsupported c))) = ⊥

-- Every library call succeeds, files are read, and every specification has its extension.
pub record IsSuccessfulRun {V : Type 0} (api : RunApi V) : Type 0 where
  pub code : (bytes : List ℕ) × (api.wasm_binary ≡ some bytes)
  pub create_runner-done :
      (cmd : V) → (config : NodeConfig V) × (api.create_runner cmd ≡ done config)
  pub parse_from-some :
      (args : List String) → (c : CliConfiguration V) × (api.cli.parse_from args ≡ some c)
  pub perform-ok : (job : Job V) → (u : Unit {0}) × (api.perform job ≡ ok u)
  pub create_configuration-ok :
      (c : CliConfiguration V) → (v : V) × (api.create_configuration c ≡ ok v)
  pub from_json_file-ok : (path : String) → (spec : ChainSpec) × (api.from_json_file path ≡ ok spec)
  pub extended : (spec : ChainSpec) → (e : Extensions) × (api.cli.get_extension spec ≡ some e)
  pub node-IsSuccessful : IsSuccessful api.node

Finishes-within :
    {F G E E' A : Type 0} (f : F → G) (w : E → E') (m : Act F E A)
    → Finishes m
    → Finishes (within f w m)
Finishes-within f w m fm = record { at = λ l. let (a, e) = fm.at [] in (a, ap (convert w) e) }

module _ {V : Type 0} (api : RunApi V) where
  -- What is on the log of a command that has done its work. A subcommand has run its own library
  -- command as the last thing, after at most the telemetry of a client. Without one the service
  -- has been started with a client, on the configuration of the runner and for the identifier that
  -- its specification has, as the last thing.
  abbrev pub WorkOf : Cli V → Option (Subcommand V) → List (CliEffect V) → Type 0
  WorkOf cli (some cmd) log =
      (job : Job V) × (rest : List (CliEffect V)) × (carries_out job ≡ cmd)
      × (log ≡ job_run job ∷ rest)
      × (api.perform job ≡ ok tt)
      × All IsTelemetry rest
  WorkOf cli none log =
      (config : NodeConfig V) × (id : ℕ) × (client : V) × (started : List (Effect V)) × (rest : List
        (CliEffect V))
      × (api.create_runner (api.normalize cli.run) ≡ done config)
      × (Option.map (λ (e : Extensions). e.para_id) (try_get api.cli config.chain_spec) ≡ some id)
      × StartsAs (api.node.prepare_node_config config.service) id (done client, started)
      × (log ≡ map service started ++ rest)
      × All IsOpening rest

module _ {V : Type 0} (api : RunApi V) (laws : IsSuccessfulRun api) where
  loads :
      (id : String)
      → (spec : ChainSpec) × (load_spec api.presets api.wasm_binary api.from_json_file id
          ≡ done spec)
  loads id =
      load_spec-done api.presets api.wasm_binary api.from_json_file id laws.code.0 laws.code.1
        (laws.from_json_file-ok id)

  creates : (cmd : V) → (config : NodeConfig V) × (api.create_runner cmd ≡ done config)
  creates = laws.create_runner-done

  performs : (job : Job V) → (u : Unit {0}) × (api.perform job ≡ ok u)
  performs = laws.perform-ok

  partials-Finishes : (config : NodeConfig V) → Finishes (partials api config)
  partials-Finishes config =
      Finishes-within service service_error (new_partial api.node config.service)
        (new_partial-Finishes api.node laws.node-IsSuccessful config.service)

  parses :
      (given : Configuration ChainSpec) (args : List String)
      → (c : RelayChainCli V) × (new api.cli given args ≡ some c)
  unfolding new
  parses given args = let (c, e) = laws.parse_from-some args in (_, ap (Option.map _) e)

  polkadot_config-Finishes :
      (cli : Cli V) (config : NodeConfig V) → Finishes (polkadot_config api cli config)
  unfolding polkadot_config
  polkadot_config-Finishes cli config =
      search (finishes_rules, parses, laws.create_configuration-ok)

  run_benchmark-Finishes :
      (feature : Bool) (cmd : BenchmarkCmd V) (config : NodeConfig V)
      → IsOffered feature (some (benchmark cmd))
      → Finishes (run_benchmark api feature cmd config)
  unfolding run_benchmark
  run_benchmark-Finishes true (pallet cmd) config h = search (finishes_rules, performs)
  run_benchmark-Finishes false (pallet cmd) config h = absurd (ground arith)
  run_benchmark-Finishes feature (block cmd) config h =
      search (finishes_rules, partials-Finishes, performs)
  run_benchmark-Finishes true (storage cmd) config h =
      search (finishes_rules, partials-Finishes, performs)
  run_benchmark-Finishes false (storage cmd) config h = absurd (ground arith)
  run_benchmark-Finishes feature (machine cmd) config h = search (finishes_rules, performs)
  run_benchmark-Finishes feature (unsupported cmd) config h = absurd h

  ruleset succeeds =
      (finishes_rules, partials-Finishes, polkadot_config-Finishes, performs, creates, loads)

  run_subcommand-Finishes :
      (feature : Bool) (cli : Cli V) (cmd : Subcommand V)
      → IsOffered feature (some cmd)
      → Finishes (run_subcommand api feature cli cmd)
  unfolding run_subcommand
  run_subcommand-Finishes feature cli (build_spec cmd) h = search succeeds
  run_subcommand-Finishes feature cli (check_block cmd) h = search succeeds
  run_subcommand-Finishes feature cli (export_blocks cmd) h = search succeeds
  run_subcommand-Finishes feature cli (export_state cmd) h = search succeeds
  run_subcommand-Finishes feature cli (import_blocks cmd) h = search succeeds
  run_subcommand-Finishes feature cli (revert cmd) h = search succeeds
  run_subcommand-Finishes feature cli (purge_chain cmd) h = search succeeds
  run_subcommand-Finishes feature cli (export_genesis_head cmd) h = search succeeds
  run_subcommand-Finishes feature cli (export_genesis_wasm cmd) h = search succeeds
  run_subcommand-Finishes feature cli (benchmark cmd) h =
      search (succeeds, run_benchmark-Finishes feature cmd _ h)

  gather-Finishes : (path : Option String) → Finishes (gather api path)
  unfolding gather
  gather-Finishes none = search finishes_rules
  gather-Finishes (some path) = search finishes_rules

  found :
      (spec : ChainSpec)
      → (id : ℕ) × (Option.map (λ (e : Extensions). e.para_id) (try_get api.cli spec) ≡ some id)
  unfolding try_get
  found spec =
      let (e, p) = laws.extended spec in
      (e.para_id, ap (Option.map (λ (e : Extensions). e.para_id)) p)

  run_node-Finishes : (cli : Cli V) → Finishes (run_node api cli)
  unfolding run_node launch
  run_node-Finishes cli =
      search
        (
          succeeds,
          gather-Finishes,
          found,
          Finishes-within,
          start-Finishes api.node laws.node-IsSuccessful,
        )
        depth 40

  selected-Finishes :
      (feature : Bool) (cli : Cli V) (o : Option (Subcommand V))
      → IsOffered feature o
      → Finishes
          (elim o [ some cmd ↦ run_subcommand api feature cli cmd | none ↦ run_node api cli ])
  selected-Finishes feature cli (some cmd) h = run_subcommand-Finishes feature cli cmd h
  selected-Finishes feature cli none h = run_node-Finishes cli

  built : IsBuilt api
  built = record {
    code = laws.code;
    runs = λ cmd h. let (config, e) = creates cmd in absurd (ground arith);
  }

  started-done :
      (r : Outcome ServiceError V) → started r ≡ done tt → (client : V) × (r ≡ done client)
  started-done (done client) h = (client, refl)
  started-done (failed e) h = absurd (ground arith)
  started-done panicked h = absurd (ground arith)

  -- The log of a command that has ended well is that of its work.
  works :
      (feature : Bool) (cli : Cli V) (o : Option (Subcommand V))
      → cli.subcommand ≡ o
      → (run api feature cli []).0 ≡ done tt
      → WorkOf api cli o (run api feature cli []).1
  works feature cli (some cmd) given ended = elim (run-RunsAs api built feature cli cmd given) [
    | inl (e, failed_, all) ↦ absurd (ground arith)
    | inr (job, rest, same, log, ran, all) ↦ (job, rest, same, log, (performs job).1, all)
  ]
  works feature cli none given ended =
      let (config, made) = creates (api.normalize cli.run) in
      elim (run-NodeRunsAs api feature cli config given made) [
        | inl (e, failed_, all) ↦ absurd (ground arith)
        | inr (id, ran, rest, ext, starts, log, same, all) ↦
            let (client, e) = started-done ran.0 (sym same ∙ ended) in
            (
              config,
              id,
              client,
              ran.1,
              rest,
              made,
              ext,
              subst (λ r. StartsAs (api.node.prepare_node_config config.service) id (r, ran.1)) e
                  starts,
              log,
              all,
            )
      ]

  -- The command does its work, whether it runs a node or a subcommand that the build has: it ends
  -- without an error, and a subcommand has run its own library command, alone, which succeeded,
  -- while without one the node has been started for the identifier in the specification that the
  -- runner has. This is so if every library call succeeds, the parsers of arguments included, the
  -- build has the code of the runtime, every file holds a specification, every specification has
  -- its extension, and the relay chain's interface comes with a key for every authority.
  pub run-done :
      (feature : Bool) (cli : Cli V)
      → IsOffered feature cli.subcommand
      → ((run api feature cli []).0 ≡ done tt)
        × WorkOf api cli cli.subcommand (run api feature cli []).1
  unfolding run
  run-done feature cli h =
      let ended = ((selected-Finishes feature cli cli.subcommand h).at []).1 in
      (ended, works feature cli cli.subcommand refl ended)
