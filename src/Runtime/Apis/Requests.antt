-- ===== src/Runtime/Apis/Requests.antt =====
-- What the node can ask of the runtime (`impl_runtime_apis!` of runtime/src/apis.rs), and what
-- FRAME does for the answers. Headers, blocks, extrinsics and other values that the code only hands
-- on are of the opaque type `V`; `S` is the state of the chain, `W` the type of weights, `P` that
-- of preset identifiers and `A` the versions of the APIs.
use Prim.Native.String.{String}
use subtrate.Base.{ℕ, Bool, Option, List}
use subtrate.Frame.Dispatch.{AccountId, Result}
use subtrate.Runtime.Version.{RuntimeVersion}
use subtrate.Runtime.Pallets.{Pallet}
use subtrate.Runtime.Payment.{PaymentConfig}

-- One constructor for each function of each API, in the order of the code.
pub data Request (V W P : Type 0) : Type 0 where
  slot_duration : Request V W P
  authorities : Request V W P
  -- included_hash, slot
  can_build_upon : V → ℕ → Request V W P
  core_version : Request V W P
  execute_block : V → Request V W P
  initialize_block : V → Request V W P
  metadata : Request V W P
  metadata_at_version : ℕ → Request V W P
  metadata_versions : Request V W P
  apply_extrinsic : V → Request V W P
  finalize_block : Request V W P
  inherent_extrinsics : V → Request V W P
  -- block, data
  check_inherents : V → V → Request V W P
  -- source, tx, block_hash
  validate_transaction : V → V → V → Request V W P
  offchain_worker : V → Request V W P
  generate_session_keys : Option (List ℕ) → Request V W P
  decode_session_keys : List ℕ → Request V W P
  account_nonce : AccountId → Request V W P
  -- uxt, len
  query_info : V → ℕ → Request V W P
  query_fee_details : V → ℕ → Request V W P
  query_weight_to_fee : W → Request V W P
  query_length_to_fee : ℕ → Request V W P
  -- The four of `TransactionPaymentCallApi`.
  query_call_info : V → ℕ → Request V W P
  query_call_fee_details : V → ℕ → Request V W P
  query_call_weight_to_fee : W → Request V W P
  query_call_length_to_fee : ℕ → Request V W P
  collect_collation_info : V → Request V W P
  on_runtime_upgrade : V → Request V W P
  -- block, state_root_check, signature_check, select
  try_execute_block : V → Bool → Bool → V → Request V W P
  benchmark_metadata : Bool → Request V W P
  dispatch_benchmark : V → Request V W P
  build_state : List ℕ → Request V W P
  get_preset : Option P → Request V W P
  preset_names : Request V W P

pub data Reply (V W P A : Type 0) : Type 0 where
  nothing : Reply V W P A
  value : V → Reply V W P A
  values : List V → Reply V W P A
  maybe : Option V → Reply V W P A
  number : ℕ → Reply V W P A
  numbers : List ℕ → Reply V W P A
  flag : Bool → Reply V W P A
  runtime_version : RuntimeVersion A → Reply V W P A
  weight : W → Reply V W P A
  weights : W → W → Reply V W P A
  benchmarks_and_storage : List V → V → Reply V W P A
  batches : Result String (List V) → Reply V W P A
  built : Result String (Unit {0}) → Reply V W P A
  preset : Option (List ℕ) → Reply V W P A
  names : List P → Reply V W P A

-- How a call of the runtime ends; `not_exported` is a call of an API that the build leaves out.
pub data Outcome (S R : Type 0) : Type 0 where
  replied : R → S → Outcome S R
  panicked : Outcome S R
  not_exported : Outcome S R

-- The features of the build on which APIs depend.
pub record Features : Type 0 where
  pub try_runtime : Bool
  pub runtime_benchmarks : Bool

-- The functions of FRAME and of the pallets. Where they return an `Option` or a result, `none` and
-- an error are theirs; `execute_block` panics by itself.
pub record Frame (S V W : Type 0) : Type 0 where
  pub authorities : S → List V
  pub executive_execute_block : V → S → Option S
  pub executive_initialize_block : V → S → V × S
  pub runtime_metadata : V
  pub opaque_metadata : V → V
  pub runtime_metadata_at_version : ℕ → Option V
  pub runtime_metadata_versions : List ℕ
  pub executive_apply_extrinsic : V → S → V × S
  pub executive_finalize_block : S → V × S
  pub create_extrinsics : V → S → List V
  pub check_extrinsics : V → V → S → V
  pub executive_validate_transaction : V → V → V → S → V
  pub executive_offchain_worker : V → S → S
  pub session_keys_generate : Option (List ℕ) → List ℕ
  pub decode_into_raw_public_keys : List ℕ → Option V
  pub system_account_nonce : AccountId → S → ℕ
  pub payment_query_info : PaymentConfig W → V → ℕ → S → V
  pub payment_query_fee_details : PaymentConfig W → V → ℕ → S → V
  pub payment_weight_to_fee : PaymentConfig W → W → ℕ
  pub payment_length_to_fee : PaymentConfig W → ℕ → ℕ
  pub payment_query_call_info : PaymentConfig W → V → ℕ → S → V
  pub payment_query_call_fee_details : PaymentConfig W → V → ℕ → S → V
  pub parachain_system_collect_collation_info : V → S → V
  pub executive_try_runtime_upgrade : V → S → Option (W × S)
  pub executive_try_execute_block : V → Bool → Bool → V → S → Option (W × S)
  pub storage_info : V
  pub whitelisted_storage_keys : V
  -- `list_benchmark!` and `add_benchmark!`, for one entry of the list of benchmarks.
  pub list_benchmark : Bool → String × Pallet → List V
  pub add_benchmark : V → V → S → String × Pallet → Result String (List V)
