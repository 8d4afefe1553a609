-- ===== src/Runtime/Apis/Answers.antt =====
-- How the runtime answers (`impl_runtime_apis!` of runtime/src/apis.rs): every function of every
-- API, over FRAME and the pallets.
use Prim.Native.String.{String}
use subtrate.Base.{ℕ, Bool, true, false, Option, none, some, List, [], ◌∷◌, ◌++◌}
use subtrate.Frame.Dispatch.{Result, ok, err}
use subtrate.Runtime.Weights.{RefTime, block_execution_weight, extrinsic_base_weight}
use subtrate.Runtime.Limits.{LimitApi, BlockWeights, runtime_block_weights}
use subtrate.Runtime.Fees.{FeeApi}
use subtrate.Runtime.Payment.{PaymentConfig, payment_config}
use subtrate.Runtime.Version.{version}
use subtrate.Runtime.Pallets.{Pallet}
use subtrate.Runtime.Benchmarks.{benchmarks}
use subtrate.Runtime.Genesis.{GenesisHelpers}
use subtrate.Runtime.Presets.{PresetApi}
use subtrate.Runtime.Apis.{
  impl_slot_duration, impl_can_build_upon, GenesisBuilder, get_preset_api, build_state_api,
  preset_names_api, dispatched_batches,
}
use subtrate.Runtime.Apis.Requests

pub record Libraries (S V W K P A : Type 0) : Type 0 where
  pub fixed_velocity : ℕ → ℕ → ℕ → S → V → ℕ → Bool
  pub frame : Requests.Frame S V W
  pub builder : GenesisBuilder S K P
  pub helpers : GenesisHelpers K
  pub presets : PresetApi P
  pub limits : LimitApi W
  pub defaults : BlockWeights W
  pub fees : FeeApi W
  pub time : RefTime
  pub api_versions : A
  pub features : Requests.Features

module _ {S V W K P A : Type 0} (l : Libraries S V W K P A) where
  abbrev pub Answer : Type 0
  Answer = Requests.Outcome S (Requests.Reply V W P A)

  -- `RuntimeBlockWeights`
  abbrev pub block_weights : BlockWeights W
  block_weights =
      runtime_block_weights l.limits (l.limits.from_parts (block_execution_weight l.time) 0)
        (l.limits.from_parts (extrinsic_base_weight l.time) 0) l.defaults

  abbrev pub payment : PaymentConfig W
  payment = payment_config l.limits l.fees l.time

  -- `unwrap`, and an API that depends on a feature of the build.
  abbrev unwrap : {B : Type 0} → Option B → (B → Answer) → Answer
  unwrap none f = Requests.panicked
  unwrap (some b) f = f b

  abbrev pub with_feature : Bool → Answer → Answer
  with_feature true a = a
  with_feature false a = Requests.not_exported

  -- `list_benchmarks!` and `add_benchmarks!` go through the list of benchmarks.
  unfoldable pub list_benchmarks : Bool → List (String × Pallet) → List V
  list_benchmarks extra [] = []
  list_benchmarks extra (b ∷ bs) = l.frame.list_benchmark extra b ++ list_benchmarks extra bs

  abbrev and_then : Result String (List V) → Result String (List V) → Result String (List V)
  and_then (err e) rest = err e
  and_then (ok bs) (err e) = err e
  and_then (ok bs) (ok cs) = ok (bs ++ cs)

  unfoldable pub add_benchmarks : V → S → List (String × Pallet) → Result String (List V)
  add_benchmarks config s [] = ok []
  add_benchmarks config s (b ∷ bs) =
      and_then (l.frame.add_benchmark config l.frame.whitelisted_storage_keys s b)
        (add_benchmarks config s bs)

  abbrev pub found : Result String (List V) → Result String (List V)
  found (err e) = err e
  found (ok bs) = dispatched_batches bs

  abbrev pub state_built : S → Result String S → Answer
  state_built s (ok t) = Requests.replied (Requests.built (ok tt)) t
  state_built s (err e) = Requests.replied (Requests.built (err e)) s

  -- An API that answers from the state of the chain and leaves it.
  abbrev pub reads : S → Requests.Reply V W P A → Answer
  reads s r = Requests.replied r s

  abbrev moves : V × S → Answer
  moves (v, t) = Requests.replied (Requests.value v) t

  -- The functions behind a feature of the build.
  unfoldable pub try_on_runtime_upgrade : V → S → Answer
  try_on_runtime_upgrade checks s =
      unwrap (l.frame.executive_try_runtime_upgrade checks s)
        (λ (w, t). Requests.replied (Requests.weights w (l.limits.max_block block_weights)) t)

  unfoldable pub try_execute_block : V → Bool → Bool → V → S → Answer
  try_execute_block block state_root_check signature_check select s =
      unwrap (l.frame.executive_try_execute_block block state_root_check signature_check select s)
        (λ (w, t). Requests.replied (Requests.weight w) t)

  unfoldable pub benchmark_metadata : Bool → S → Answer
  unfolding list_benchmarks
  benchmark_metadata extra s =
      reads s
        (Requests.benchmarks_and_storage (list_benchmarks extra benchmarks) l.frame.storage_info)

  unfoldable pub dispatch_benchmark : V → S → Answer
  dispatch_benchmark config s =
      reads s (Requests.batches (found (add_benchmarks config s benchmarks)))

  unfoldable pub answer : Requests.Request V W P → S → Answer
  unfolding impl_can_build_upon try_on_runtime_upgrade try_execute_block benchmark_metadata
      dispatch_benchmark
  answer Requests.slot_duration s = reads s (Requests.number impl_slot_duration)
  answer Requests.authorities s = reads s (Requests.values (l.frame.authorities s))
  answer (Requests.can_build_upon included_hash slot) s =
      reads s (Requests.flag (impl_can_build_upon l.fixed_velocity s included_hash slot))
  answer Requests.core_version s = reads s (Requests.runtime_version (version l.api_versions))
  answer (Requests.execute_block block) s =
      unwrap (l.frame.executive_execute_block block s) (λ t. Requests.replied Requests.nothing t)
  answer (Requests.initialize_block header) s = moves (l.frame.executive_initialize_block header s)
  answer Requests.metadata s =
      reads s (Requests.value (l.frame.opaque_metadata l.frame.runtime_metadata))
  answer (Requests.metadata_at_version v) s =
      reads s (Requests.maybe (l.frame.runtime_metadata_at_version v))
  answer Requests.metadata_versions s = reads s (Requests.numbers l.frame.runtime_metadata_versions)
  answer (Requests.apply_extrinsic extrinsic) s =
      moves (l.frame.executive_apply_extrinsic extrinsic s)
  answer Requests.finalize_block s = moves (l.frame.executive_finalize_block s)
  answer (Requests.inherent_extrinsics inherents) s =
      reads s (Requests.values (l.frame.create_extrinsics inherents s))
  answer (Requests.check_inherents block inherents) s =
      reads s (Requests.value (l.frame.check_extrinsics inherents block s))
  answer (Requests.validate_transaction source tx block_hash) s =
      reads s (Requests.value (l.frame.executive_validate_transaction source tx block_hash s))
  answer (Requests.offchain_worker header) s =
      Requests.replied Requests.nothing (l.frame.executive_offchain_worker header s)
  answer (Requests.generate_session_keys seed) s =
      reads s (Requests.numbers (l.frame.session_keys_generate seed))
  answer (Requests.decode_session_keys encoded) s =
      reads s (Requests.maybe (l.frame.decode_into_raw_public_keys encoded))
  answer (Requests.account_nonce account) s =
      reads s (Requests.number (l.frame.system_account_nonce account s))
  answer (Requests.query_info uxt len) s =
      reads s (Requests.value (l.frame.payment_query_info payment uxt len s))
  answer (Requests.query_fee_details uxt len) s =
      reads s (Requests.value (l.frame.payment_query_fee_details payment uxt len s))
  answer (Requests.query_weight_to_fee w) s =
      reads s (Requests.number (l.frame.payment_weight_to_fee payment w))
  answer (Requests.query_length_to_fee length) s =
      reads s (Requests.number (l.frame.payment_length_to_fee payment length))
  answer (Requests.query_call_info call len) s =
      reads s (Requests.value (l.frame.payment_query_call_info payment call len s))
  answer (Requests.query_call_fee_details call len) s =
      reads s (Requests.value (l.frame.payment_query_call_fee_details payment call len s))
  answer (Requests.query_call_weight_to_fee w) s =
      reads s (Requests.number (l.frame.payment_weight_to_fee payment w))
  answer (Requests.query_call_length_to_fee length) s =
      reads s (Requests.number (l.frame.payment_length_to_fee payment length))
  answer (Requests.collect_collation_info header) s =
      reads s (Requests.value (l.frame.parachain_system_collect_collation_info header s))
  answer (Requests.on_runtime_upgrade checks) s =
      with_feature l.features.try_runtime (try_on_runtime_upgrade checks s)
  answer (Requests.try_execute_block block state_root_check signature_check select) s =
      with_feature l.features.try_runtime
        (try_execute_block block state_root_check signature_check select s)
  answer (Requests.benchmark_metadata extra) s =
      with_feature l.features.runtime_benchmarks (benchmark_metadata extra s)
  answer (Requests.dispatch_benchmark config) s =
      with_feature l.features.runtime_benchmarks (dispatch_benchmark config s)
  answer (Requests.build_state config) s =
      state_built s (build_state_api l.builder l.helpers l.presets config s)
  answer (Requests.get_preset id) s =
      reads s (Requests.preset (get_preset_api l.builder l.helpers l.presets id))
  answer Requests.preset_names s =
      reads s (Requests.names (preset_names_api l.builder l.helpers l.presets))
