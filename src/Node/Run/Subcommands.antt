-- ===== src/Node/Run/Subcommands.antt =====
-- What a subcommand does (`run` of node/src/command.rs with a subcommand).
use Prim.Native.String.{String}
use subtrate.Base.{
  ℕ, ◌≢◌, ◌≡◌, refl, ap, ◌⊎◌, inl, inr, Bool, true, false, some, List, [], ◌∷◌, ◌++◌,
}
use subtrate.Frame.Dispatch.{Result, ok, err}
use subtrate.Node.Effects.{Outcome, failed, panicked, raise, lift, attempt, ◌>>=◌}
use subtrate.Node.Emits.{
  All, All-append, Emits, Emits-lift, Emits-attempt, emits_rules, Emits-within,
}
use subtrate.Node.Ends.{Ends, Ends-log, IsEnd, Ends-raise, Ends-bind}
use subtrate.Node.Command.{load_spec}
use subtrate.Node.Loading.{load_spec-ne_panicked}
use subtrate.Node.Service.Types.{telemetry_worker, spawned}
use subtrate.Node.Service.Start.{new_partial}
use subtrate.Node.Service.BringUp.{new_partial-Emits}
use subtrate.Node.Run.Types.{
  BenchmarkCmd, pallet, block, storage, machine, unsupported, Subcommand, build_spec, check_block,
  export_blocks, export_state, import_blocks, revert, purge_chain, export_genesis_head,
  export_genesis_wasm, benchmark, Cli, NodeConfig, Job, build_spec_job, check_block_job,
  export_blocks_job, export_state_job, import_blocks_job, revert_job, purge_chain_job,
  export_genesis_head_job, export_genesis_wasm_job, pallet_job, block_job, storage_job, machine_job,
  CliEffect, job_run, service, CliError, library, service_error, RunApi,
}
use subtrate.Node.Run.Main.{
  Command, runner, perform, partials, polkadot_config, run_benchmark, run_subcommand, run,
}

-- The subcommand that a library's command stands for.
abbrev pub carries_out : {V : Type 0} → Job V → Subcommand V
carries_out (build_spec_job c s n) = build_spec c
carries_out (check_block_job c k q) = check_block c
carries_out (export_blocks_job c k d) = export_blocks c
carries_out (export_state_job c k s) = export_state c
carries_out (import_blocks_job c k q) = import_blocks c
carries_out (revert_job c k b) = revert c
carries_out (purge_chain_job c n p) = purge_chain c
carries_out (export_genesis_head_job c k) = export_genesis_head c
carries_out (export_genesis_wasm_job c s) = export_genesis_wasm c
carries_out (pallet_job c s) = benchmark (pallet c)
carries_out (block_job c k) = benchmark (block c)
carries_out (storage_job c n k d s) = benchmark (storage c)
carries_out (machine_job c n) = benchmark (machine c)

-- The one thing that building a client starts.
abbrev pub IsTelemetry : {V : Type 0} → CliEffect V → Type 0
IsTelemetry {V} e = (w : V) × (e ≡ service (spawned "telemetry" (telemetry_worker w)))

module _ {V : Type 0} (api : RunApi V) where
  -- How a subcommand ends: with an error before its library command, or as that command does,
  -- which is the last thing started. Besides there is only the telemetry of a client.
  abbrev pub RunsAs : Subcommand V → Outcome CliError (Unit {0}) × List (CliEffect V) → Type 0
  RunsAs cmd (r, log) =
      ((e : CliError) × (r ≡ failed e) × All IsTelemetry log)
      ⊎ ((job : Job V) × (rest : List (CliEffect V)) × (carries_out job ≡ cmd)
          × (log ≡ job_run job ∷ rest)
          × (r ≡ (lift {F = CliEffect V} library (api.perform job) []).0)
          × All IsTelemetry rest)

  lift-log :
      (r : Result String (Unit {0})) (l : List (CliEffect V))
      → lift library r l ≡ ((lift {F = CliEffect V} library r []).0, l)
  lift-log (ok u) l = refl
  lift-log (err e) l = refl

  perform-Ends :
      {cmd : Subcommand V} (job : Job V)
      → carries_out job ≡ cmd
      → Ends (RunsAs cmd) (perform api job)
  perform-Ends job same = record {
    at = λ l.
        let ran = lift-log (api.perform job) (job_run job ∷ l) in
        (job_run job ∷ [], ap (λ x. x.1) ran, inr (job, [], same, refl, ap (λ x. x.0) ran, tt));
  }

  RunsAs-append :
      (cmd : Subcommand V) (r : Outcome CliError (Unit {0})) (new l : List (CliEffect V))
      → RunsAs cmd (r, new)
      → All IsTelemetry l
      → RunsAs cmd (r, new ++ l)
  RunsAs-append cmd r new l (inl (e, re, all)) all' =
      inl (e, re, All-append IsTelemetry new l all all')
  RunsAs-append cmd r new l (inr (job, rest, same, log, re, all)) all' =
      inr (job, rest ++ l, same, ap (λ k. k ++ l) log, re, All-append IsTelemetry rest l all all')

  RunsAs-IsEnd : {cmd : Subcommand V} → IsEnd IsTelemetry (RunsAs cmd)
  RunsAs-IsEnd {cmd} = record {
    fails = λ e. inl (e, refl, tt);
    append = λ r new l. RunsAs-append cmd r new l;
  }

  module _ {cmd : Subcommand V} where
    raise-Ends : (e : CliError) → Ends (RunsAs cmd) (raise e)
    raise-Ends = Ends-raise RunsAs-IsEnd

    bind-Ends :
        {A : Type 0} (m : Command V A) (f : A → Command V (Unit {0}))
        → Emits IsTelemetry ⊥ m
        → ((a : A) → Ends (RunsAs cmd) (f a))
        → Ends (RunsAs cmd) (m >>= f)
    bind-Ends = Ends-bind RunsAs-IsEnd

  partials-Emits : (config : NodeConfig V) → Emits IsTelemetry ⊥ (partials api config)
  partials-Emits config =
      Emits-within service service_error (new_partial api.node config.service)
        (new_partial-Emits api.node
          {Q = λ f. (w : V) × (f ≡ spawned "telemetry" (telemetry_worker w))} (λ w. (w, refl))
          config.service)
        λ f (w, e). (w, ap service e)

  polkadot_config-Emits :
      (cli : Cli V) (config : NodeConfig V) → Emits IsTelemetry ⊥ (polkadot_config api cli config)
  unfolding polkadot_config
  polkadot_config-Emits cli config = search emits_rules

  -- A build that has the code of the runtime, where creating the runner, which loads a
  -- specification, does not panic.
  pub record IsBuilt : Type 0 where
    pub code : (bytes : List ℕ) × (api.wasm_binary ≡ some bytes)
    pub runs : (cmd : V) → api.create_runner cmd ≢ panicked

  module _ (built : IsBuilt) where
    runner-Emits : (cmd : V) → Emits IsTelemetry ⊥ (runner api cmd)
    runner-Emits cmd = Emits-attempt library (api.create_runner cmd) (built.runs cmd)

    load_spec-Emits :
        (id : String)
        → Emits
            (IsTelemetry {V = V})
            ⊥
            (attempt library (load_spec api.presets api.wasm_binary api.from_json_file id))
    load_spec-Emits id = Emits-attempt library _ (
        load_spec-ne_panicked api.presets api.wasm_binary api.from_json_file id built.code.0
          built.code.1)

    ruleset ends_rules = (
      raise-Ends, perform-Ends, bind-Ends, Emits-lift, partials-Emits, polkadot_config-Emits,
      runner-Emits, load_spec-Emits, refl,
    )

    run_benchmark-Ends :
        (feature : Bool) (cmd : BenchmarkCmd V) (config : NodeConfig V)
        → Ends (RunsAs (benchmark cmd)) (run_benchmark api feature cmd config)
    unfolding run_benchmark
    run_benchmark-Ends true (pallet cmd) config = search ends_rules
    run_benchmark-Ends false (pallet cmd) config = search ends_rules
    run_benchmark-Ends feature (block cmd) config = search ends_rules
    run_benchmark-Ends true (storage cmd) config = search ends_rules
    run_benchmark-Ends false (storage cmd) config = search ends_rules
    run_benchmark-Ends feature (machine cmd) config = search ends_rules
    run_benchmark-Ends feature (unsupported cmd) config = search ends_rules

    run_subcommand-Ends :
        (feature : Bool) (cli : Cli V) (cmd : Subcommand V)
        → Ends (RunsAs cmd) (run_subcommand api feature cli cmd)
    unfolding run_subcommand
    run_subcommand-Ends feature cli (build_spec cmd) = search ends_rules
    run_subcommand-Ends feature cli (check_block cmd) = search ends_rules
    run_subcommand-Ends feature cli (export_blocks cmd) = search ends_rules
    run_subcommand-Ends feature cli (export_state cmd) = search ends_rules
    run_subcommand-Ends feature cli (import_blocks cmd) = search ends_rules
    run_subcommand-Ends feature cli (revert cmd) = search ends_rules
    run_subcommand-Ends feature cli (purge_chain cmd) = search ends_rules
    run_subcommand-Ends feature cli (export_genesis_head cmd) = search ends_rules
    run_subcommand-Ends feature cli (export_genesis_wasm cmd) = search ends_rules
    run_subcommand-Ends feature cli (benchmark cmd) = search (ends_rules, run_benchmark-Ends)

    -- With a subcommand the command never starts a node: it either fails, or is ended by the parser
    -- of the relay chain's arguments, having started nothing but the telemetry of a client, or runs
    -- exactly one library command, the subcommand's own, as the last thing, and then ends as that
    -- does. It does not panic in a build that has the code of the runtime, where creating the
    -- runner is taken not to panic.
    pub run-RunsAs :
        (feature : Bool) (cli : Cli V) (cmd : Subcommand V)
        → cli.subcommand ≡ some cmd
        → RunsAs cmd (run api feature cli [])
    unfolding run
    run-RunsAs feature cli cmd given =
        rw given
          (Ends-log (run_subcommand api feature cli cmd) (run_subcommand-Ends feature cli cmd))
