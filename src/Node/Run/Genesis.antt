-- ===== src/Node/Run/Genesis.antt =====
-- The node and the genesis of its chain: `run` of node/src/command.rs on a built-in chain
-- specification, whose genesis presets are those of runtime/src/genesis_config_presets.rs.
use Prim.Native.String.{String}
use mathlib.Core.Option
use mathlib.Core.Path.{subst}
use subtrate.Base.{◌≡◌, sym, ap, ◌∙◌, ◌⊎◌, inl, inr, Bool, Option, none, some, List, [], ◌++◌, map}
use subtrate.Runtime.Genesis.{RuntimeGenesisConfig, GenesisHelpers}
use subtrate.Runtime.Presets.{preset_of}
use subtrate.Node.Effects.{Outcome, done, failed, panicked}
use subtrate.Node.Emits.{All}
use subtrate.Node.ChainSpec.{Extensions, ChainSpec}
use subtrate.Node.Command.{load_spec, try_get}
use subtrate.Node.Loading.{IsBuiltin, load_spec-para_id, load_spec-code}
use subtrate.Node.Service.Types.{Effect, ServiceError}
use subtrate.Node.Service.Order.{StartsAs}
use subtrate.Node.Run.Types.{Cli, NodeConfig, CliEffect, service, CliError, RunApi}
use subtrate.Node.Run.Main.{run}
use subtrate.Node.Run.Node.{IsOpening, started, run-NodeRunsAs}

some-value : {X : Type 0} (a : X) {x y : X} → Path (Option X) (some x) (some y) → x ≡ y
some-value a p = ap (λ o. elim o [ some v ↦ v | none ↦ a ]) p

done-value : {E X : Type 0} (a : X) {x y : X} → Path (Outcome E X) (done x) (done y) → x ≡ y
done-value a p = ap (λ r. elim r [ done v ↦ v | failed e ↦ a | panicked ↦ a ]) p

module _ {V K : Type 0} (api : RunApi V) (g : GenesisHelpers K) where
  -- How a node ends: with an error before the service, or as the service does for the identifier
  -- that the genesis of the chain gives to the runtime.
  abbrev pub RunsForGenesis :
      NodeConfig V → Outcome CliError (Unit {0}) × List (CliEffect V) → Type 0
  RunsForGenesis config (r, log) =
      ((e : CliError) × (r ≡ failed e) × All IsOpening log)
      ⊎ ((genesis : RuntimeGenesisConfig K) × (ran : Outcome ServiceError V × List (Effect V))
          × (rest : List (CliEffect V)) × (preset_of g api.presets
                (some config.chain_spec.genesis_preset)
              ≡ some genesis)
          × StartsAs (api.node.prepare_node_config config.service) genesis.parachain_id ran
          × (log ≡ map service ran.1 ++ rest)
          × (r ≡ started ran.0)
          × All IsOpening rest)

  -- A node on a built-in chain specification runs its service, if it comes to it, for the parachain
  -- identifier that the genesis preset of that specification gives to the runtime: network, relay
  -- chain tasks and author are all for the chain's own identifier. The extension of a specification
  -- is assumed to be found as it was built in.
  pub run-RunsForGenesis :
      (feature : Bool) (cli : Cli V) (config : NodeConfig V) (id : String)
      → IsBuiltin id
      → load_spec api.presets api.wasm_binary api.from_json_file id ≡ done config.chain_spec
      → ((spec : ChainSpec) → api.cli.get_extension spec ≡ some spec.extensions)
      → cli.subcommand ≡ none
      → api.create_runner (api.normalize cli.run) ≡ done config
      → RunsForGenesis config (run api feature cli [])
  unfolding try_get
  run-RunsForGenesis feature cli config id builtin loaded extended bare given =
      let (code, has) =
        load_spec-code api.presets api.wasm_binary api.from_json_file id builtin loaded in
      let (spec, genesis, loads, found, number) =
        load_spec-para_id api.presets api.wasm_binary api.from_json_file g id code builtin has in
      let same : spec ≡ config.chain_spec = done-value spec (sym loads ∙ loaded) in
      elim (run-NodeRunsAs api feature cli config bare given) [
        | inl fails ↦ inl fails
        | inr (para_id, ran, rest, named, starts, log, r, all) ↦
            let identifier : genesis.parachain_id ≡ para_id =
              number
              ∙ ap (λ (s : ChainSpec). s.extensions.para_id) same
              ∙ some-value 0 (
                  sym (ap (Option.map (λ (e : Extensions). e.para_id)) (extended config.chain_spec))
                  ∙ named) in
            inr (
              genesis,
              ran,
              rest,
              subst
                  (λ (s : ChainSpec).
                    preset_of g api.presets (some s.genesis_preset) ≡ some genesis)
                  same found,
              subst (λ n. StartsAs (api.node.prepare_node_config config.service) n ran)
                  (sym identifier) starts,
              log,
              r,
              all,
            )
      ]
