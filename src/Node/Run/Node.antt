-- ===== src/Node/Run/Node.antt =====
-- What the command does without a subcommand: it runs a node (`run` of node/src/command.rs).
use Prim.Native.String.{String}
use mathlib.Core.Option
use mathlib.Core.List.{append_assoc, append-nil}
use subtrate.Base.{
  ℕ, ◌≡◌, refl, sym, ap, ◌∙◌, ◌⊎◌, inl, inr, Bool, Option, none, some, List, [], ◌∷◌, ◌++◌, map,
}
use subtrate.Node.Effects.{
  Outcome, done, failed, panicked, continue, convert, within, pure, emit, ◌>>=◌,
}
use subtrate.Node.Emits.{All, All-append, Emits, Emits-pure, emits_rules, Emits-emit, Emits-bind}
use subtrate.Node.Ends.{Ends, Ends-log, IsEnd, Ends-bind, Ends-bind_done, Ends-ok_or}
use subtrate.Node.ChainSpec.{Extensions}
use subtrate.Node.Command.{try_get}
use subtrate.Node.Service.Types.{Effect, ServiceError}
use subtrate.Node.Service.Start.{start_parachain_node}
use subtrate.Node.Service.Order.{StartsAs, start-StartsAs}
use subtrate.Node.Run.Types.{
  Cli, NodeConfig, CliEffect, dir_created, hwbench_gathered, collating_logged, service, CliError,
  library, service_error, RunApi,
}
use subtrate.Node.Run.Main.{polkadot_config, gather, unless, launch, run_node, run}

-- What the command itself does before the service.
abbrev pub IsOpening : {V : Type 0} → CliEffect V → Type 0
IsOpening {V} e =
    ((path : String) × ((e ≡ dir_created path) ⊎ (e ≡ hwbench_gathered path)))
    ⊎ ((b : Bool) × (e ≡ collating_logged b))

-- The outcome of a start for the command, which drops the client.
abbrev pub started : {V : Type 0} → Outcome ServiceError V → Outcome CliError (Unit {0})
started (done client) = done tt
started (failed e) = failed (service_error e)
started panicked = panicked

module _ {V : Type 0} (api : RunApi V) where
  -- How the command ends without a subcommand: with an error before the service, or as the service
  -- does, for the parachain that the chain specification names and the runner's configuration.
  abbrev pub NodeRunsAs : NodeConfig V → Outcome CliError (Unit {0}) × List (CliEffect V) → Type 0
  NodeRunsAs config (r, log) =
      ((e : CliError) × (r ≡ failed e) × All IsOpening log)
      ⊎ ((id : ℕ) × (ran : Outcome ServiceError V × List (Effect V)) × (rest : List (CliEffect V))
          × (Option.map (λ (e : Extensions). e.para_id) (try_get api.cli config.chain_spec)
              ≡ some id)
          × StartsAs (api.node.prepare_node_config config.service) id ran
          × (log ≡ map service ran.1 ++ rest)
          × (r ≡ started ran.0)
          × All IsOpening rest)

  NodeRunsAs-append :
      (config : NodeConfig V) (r : Outcome CliError (Unit {0})) (new l : List (CliEffect V))
      → NodeRunsAs config (r, new)
      → All IsOpening l
      → NodeRunsAs config (r, new ++ l)
  NodeRunsAs-append config r new l (inl (e, re, all)) all' =
      inl (e, re, All-append IsOpening new l all all')
  NodeRunsAs-append config r new l (inr (id, ran, rest, ext, starts, log, re, all)) all' = inr (
    id,
    ran,
    rest ++ l,
    ext,
    starts,
    ap (λ k. k ++ l) log ∙ append_assoc _ rest l,
    re,
    All-append IsOpening rest l all all',
  )

  NodeRunsAs-IsEnd : (config : NodeConfig V) → IsEnd IsOpening (NodeRunsAs config)
  NodeRunsAs-IsEnd config = record {
    fails = λ e. inl (e, refl, tt);
    append = λ r new l. NodeRunsAs-append config r new l;
  }

  gather-Emits : (path : Option String) → Emits IsOpening ⊥ (gather api path)
  unfolding gather
  gather-Emits none = Emits-pure none
  gather-Emits (some path) = Emits-bind _ _ (Emits-emit _ (inl (path, inl refl))) λ _.
      Emits-bind _ _ (Emits-emit _ (inl (path, inr refl)))
        λ _. Emits-pure (some (api.gather_hwbench path))

  polkadot_config-Emits :
      (cli : Cli V) (config : NodeConfig V) → Emits IsOpening ⊥ (polkadot_config api cli config)
  unfolding polkadot_config
  polkadot_config-Emits cli config = search emits_rules

  -- The service as the end of the command.
  service-then :
      (r : Outcome ServiceError V) (log : List (Effect V)) (l : List (CliEffect V))
      → continue {F = CliEffect V} (convert service_error r) (λ _. pure tt) (map service log ++ l)
        ≡ (started r, map service log ++ l)
  service-then (done client) log l = refl
  service-then (failed e) log l = refl
  service-then panicked log l = refl

  service-Ends :
      (config : NodeConfig V) (polkadot options : V) (id : ℕ) (bench : Option V)
      → Option.map (λ (e : Extensions). e.para_id) (try_get api.cli config.chain_spec) ≡ some id
      → Ends (NodeRunsAs config) (
          within service service_error
            (start_parachain_node api.node config.service polkadot options id bench)
          >>= λ _. pure tt)
  service-Ends config polkadot options id bench ext = record {
    at = λ l.
        let ran = start_parachain_node api.node config.service polkadot options id bench [] in
        let e = service-then ran.0 ran.1 l in
        (
          map service ran.1,
          ap (λ x. x.1) e,
          inr (
            id,
            ran,
            [],
            ext,
            start-StartsAs api.node config.service polkadot options id bench,
            sym (append-nil _),
            ap (λ x. x.0) e,
            tt,
          ),
        );
  }

  launch-Ends :
      (cli : Cli V) (config : NodeConfig V) (bench : Option V)
      → Ends (NodeRunsAs config) (launch api cli config bench)
  unfolding launch
  launch-Ends cli config bench =
      let end = NodeRunsAs-IsEnd config in
      Ends-ok_or end _ _ _ λ id ext.
        Ends-bind end (polkadot_config api cli config) _ (polkadot_config-Emits cli config)
          λ polkadot.
            Ends-bind end (emit (collating_logged config.service.is_authority)) _
              (Emits-emit _ (inr (_, refl)))
              λ _. service-Ends config polkadot (api.collator_options cli.run) id bench ext

  run_node-Ends :
      (cli : Cli V) (config : NodeConfig V)
      → api.create_runner (api.normalize cli.run) ≡ done config
      → Ends (NodeRunsAs config) (run_node api cli)
  unfolding run_node
  run_node-Ends cli config given = Ends-bind_done library _ config _ given (
      Ends-bind (NodeRunsAs-IsEnd config) (gather api config.database_path) _
        (gather-Emits config.database_path)
        λ gathered. launch-Ends cli config (unless cli.no_hardware_benchmarks gathered))

  -- Without a subcommand the command, once the runner has its configuration, either fails, or is
  -- ended by the parser of the relay chain's arguments, before the service, or finds the
  -- parachain's identifier in the chain specification and ends as the service started for that
  -- identifier does, whose start is the last part of its log. Before the service it does nothing
  -- but create the directory of the database, gather a hardware benchmark and print whether it
  -- collates.
  pub run-NodeRunsAs :
      (feature : Bool) (cli : Cli V) (config : NodeConfig V)
      → cli.subcommand ≡ none
      → api.create_runner (api.normalize cli.run) ≡ done config
      → NodeRunsAs config (run api feature cli [])
  unfolding run
  run-NodeRunsAs feature cli config bare given =
      rw bare (Ends-log (run_node api cli) (run_node-Ends cli config given))

  -- A command without a subcommand gathers a hardware benchmark first whenever the node's database
  -- has a path, whether or not the flag that disables the benchmarks is given.
  pub run-gathers :
      (feature : Bool) (cli : Cli V) (config : NodeConfig V) (path : String)
      → cli.subcommand ≡ none
      → api.create_runner (api.normalize cli.run) ≡ done config
      → config.database_path ≡ some path
      → (new : List (CliEffect V)) × ((run api feature cli []).1
          ≡ new ++ hwbench_gathered path ∷ dir_created path ∷ [])
  unfolding run run_node gather
  run-gathers feature cli config path bare given stored =
      let bench = unless cli.no_hardware_benchmarks (some (api.gather_hwbench path)) in
      let (new, e, _) =
        (launch-Ends cli config bench).at (hwbench_gathered path ∷ dir_created path ∷ []) in
      let ran : (run api feature cli []).1
          ≡ (launch api cli config bench (hwbench_gathered path ∷ dir_created path ∷ [])).1 =
        rw (bare, given, stored) refl in
      (new, ran ∙ e)
