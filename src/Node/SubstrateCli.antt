-- ===== src/Node/SubstrateCli.antt =====
-- The two command lines of the node, `impl SubstrateCli for Cli` and `for RelayChainCli` of
-- node/src/command.rs, over what the build gives to the program.
use Prim.Native.String.{String, ◌++◌}
use subtrate.Base.{ℕ, Option, List}
use subtrate.Node.Effects.{Outcome}
use subtrate.Frame.Dispatch.{Result}
use subtrate.Runtime.Presets.{PresetApi}
use subtrate.Node.ChainSpec.{ChainSpec}
use subtrate.Node.Command.{load_spec}

-- A command line that loads specifications of type `D`.
pub record SubstrateCli (D : Type 0) : Type 0 where
  pub impl_name : String
  pub impl_version : String
  pub description : String
  pub author : String
  pub support_url : String
  pub copyright_start_year : ℕ
  pub load : String → Outcome String D

-- `SUBSTRATE_CLI_IMPL_VERSION`, `CARGO_PKG_AUTHORS` and the name of the program.
pub record BuildEnv : Type 0 where
  pub impl_version : String
  pub pkg_authors : String
  pub executable_name : String

abbrev pub description_of : String → String
description_of executable_name =
    "Parachain Collator Template\n\nThe command-line arguments provided first will be passed to the parachain node, while the arguments provided after -- will be passed to the relay chain node.\n\n"
    ++ (executable_name ++ " <parachain-args> -- <relay-chain-args>")

module _ (env : BuildEnv) where
  unfoldable pub node_cli :
      {P : Type 0}
      → PresetApi P
      → Option (List ℕ)
      → (String → Result String ChainSpec)
      → SubstrateCli ChainSpec
  unfolding load_spec
  node_cli api wasm_binary from_json_file = record {
    impl_name = "Parachain Collator Template";
    impl_version = env.impl_version;
    description = description_of env.executable_name;
    author = env.pkg_authors;
    support_url = "https://github.com/paritytech/polkadot-sdk/issues/new";
    copyright_start_year = 2020;
    load = load_spec api wasm_binary from_json_file;
  }

  -- `polkadot_load` is `load_spec` of the relay chain's own command line without arguments.
  unfoldable pub relay_chain_substrate_cli :
      {D : Type 0} → (String → Outcome String D) → SubstrateCli D
  relay_chain_substrate_cli polkadot_load = record {
    impl_name = "Parachain Collator Template";
    impl_version = env.impl_version;
    description = description_of env.executable_name;
    author = env.pkg_authors;
    support_url = "https://github.com/paritytech/polkadot-sdk/issues/new";
    copyright_start_year = 2020;
    load = polkadot_load;
  }
