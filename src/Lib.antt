-- ===== src/Lib.antt =====
-- Verification of a parachain: a prediction market pallet, the other pallets of the repository,
-- the runtime that composes them and the node that runs it.
--
-- Base holds the shared names: Boolean tests, lists over the native numbers, and Rust's saturating
-- and checked arithmetic. Frame is what the code takes from FRAME, as parameters with their
-- documented laws or as the part of them that is fixed: calls as functions of a storage with an
-- error (`#[transactional]` and the storage layer of every dispatch roll back), storage maps as
-- association lists, a currency with the laws of `transfer`, weights.
--
-- - CustomPallet: pallets/custom-pallet/src/lib.rs. Types has the storage, events and errors;
--   Calls has `create_market`, `vote`, `release_rewards`, `create_meme`, `account_id` and
--   `get_market_memes` under their names, in the order of the code, and `dispatch`. A loop over
--   `Votes::iter_prefix` is a recursion on the list of the votes of a market, in any order of
--   storage. Steps has the calls as a step relation, Reach the runs of calls, blocks and other
--   movements of the ledger, Board the pallet's rules over markets without counters, with ballots
--   that are quotients of lists of votes, and the other files are named for what they prove.
-- - Counter: pallets/custom-pallet/src/custom.rs, a second pallet in that crate, which no `mod`
--   line of it declares.
-- - Template: pallets/template/src/lib.rs and weights.rs.
-- - Runtime: runtime/src/lib.rs (constants, `WeightToFee` in Fees, the transaction extensions in
--   Extrinsics, the version, the pallet indices), runtime/src/weights, runtime/src/benchmarks.rs
--   (the list in Benchmarks), of runtime/src/configs/mod.rs the limits of a block (Limits), the
--   configuration of the market pallet (Market) and those of the other pallets (Configs, Payment),
--   runtime/src/configs/xcm_config.rs (Xcm: the barrier, the conversions of origins, the handling
--   of assets, the router, the weigher, the trader and the two configurations that put them
--   together), runtime/src/genesis_config_presets.rs (Genesis and Presets), and
--   runtime/src/apis.rs: Apis has what is more than a call of FRAME, and Apis/Answers the answer
--   to every request, where FRAME's functions are parameters. A configuration is a record of the
--   associated types that the code sets: a constant is its value, a type of a library a parameter.
-- - Node: node/src/chain_spec.rs, node/src/cli.rs and node/src/command.rs (Command, Loading and
--   RelayChain for the loading of a specification and the relay chain's part of the command line,
--   SubstrateCli for what both command lines say of themselves, Run for the subcommands and `run`,
--   which Run/Main defines), node/src/service.rs (Service, defined in Service/Start) and
--   node/src/rpc.rs (Rpc). Code that calls libraries with effects is an action (Effects; Emits,
--   Returns, Records, Ends and Finishes say what holds of one): it takes the log of what has been
--   started, newest first, and returns a value, an error or a panic with the longer log, which
--   outlives an error. A build without the code of the runtime panics where a built-in
--   specification is loaded, and where the parser of the relay chain's arguments ends the process
--   there is an error, which nothing catches. Values that the code only passes on are of one opaque
--   type, and a library call that fails has logged nothing.
--
-- The parts meet where the code does: the node's specifications name the genesis presets of the
-- runtime, the runtime configures the market pallet, its constants enter its fees and its genesis,
-- and `run` starts the service for the identifier in the chain specification.
--
-- Bounds: block numbers, votes and identifiers are `u32`, balances `u128` and weights `u64`; every
-- operation keeps the saturation or the check of the source. Byte strings and meme lists keep the
-- limits of their `BoundedVec`. No definition needs fuel: every recursion is on a list.
--
-- Not modelled: what the client libraries and FRAME do when they are called, beyond the laws that
-- the theorems name, and the library types among the associated types of the configurations, which
-- are opaque; the executable's `main`, which only calls `run`, the build scripts, and the parts of
-- the mocks and benchmarks that set up no value.
pub mod Base
pub mod Frame
pub mod CustomPallet
pub mod Counter
pub mod Template
pub mod Runtime
pub mod Node
