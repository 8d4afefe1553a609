-- ===== src/Runtime/Apis/Examples.antt =====
-- The theorems on the runtime APIs (runtime/src/apis.rs) at concrete libraries: the state of the
-- chain is a number, which a genesis sets to its parachain identifier, and an opaque value a text.
use Prim.Native.String.{String}
use text.Mathlib.Text.{◌==◌ as ◌str_eq◌}
use text.Mathlib.TextEquality.{eq_iff}
use subtrate.Base.{
  ℕ, ◌*◌, ◌≤◌, ◌≡◌, refl, sym, ap, inl, inr, Bool, true, false, Bool-cases, none, some, List, [],
  ◌∷◌, min, map, leb, if◌then◌else◌, arith,
}
use subtrate.Frame.Dispatch.{AccountId, Result, ok, err}
use subtrate.Runtime.Constants.{micro_unit, existential_deposit}
use subtrate.Runtime.Limits.{maximum_block_weight, max_block-maximum}
use subtrate.Runtime.Weights.{block_execution_weight, extrinsic_base_weight}
use subtrate.Runtime.Figures.{
  Pair, weights, weights-IsLimitApi, defaults, time, fees, fees-IsFeeApi, helpers, presets,
}
use subtrate.Runtime.Apis.{GenesisBuilder}
use subtrate.Runtime.Apis.Requests
use subtrate.Runtime.Apis.Answers.{Libraries, answer}
use subtrate.Runtime.Apis.Charges.{IsPaymentApi, fees_quoted}
use subtrate.Runtime.Apis.Measuring.{IsBenchmarkApi}

abbrev smaller : Pair → Pair → Pair
smaller a b = (min a.0 b.0, min a.1 b.1)

abbrev one_batch : Bool → String → Result String (List String)
one_batch true name = ok (name ∷ [])
one_batch false name = ok []

abbrev frame : Requests.Frame ℕ String Pair
frame = record {
  authorities = λ s. [];
  executive_execute_block = λ block s. some s;
  executive_initialize_block = λ header s. ("all", s);
  runtime_metadata = "metadata";
  opaque_metadata = λ m. m;
  runtime_metadata_at_version = λ v. none;
  runtime_metadata_versions = 14 ∷ 15 ∷ [];
  executive_apply_extrinsic = λ x s. (x, s);
  executive_finalize_block = λ s. ("header", s);
  create_extrinsics = λ d s. [];
  check_extrinsics = λ d b s. "fine";
  executive_validate_transaction = λ source tx hash s. "valid";
  executive_offchain_worker = λ header s. s;
  session_keys_generate = λ seed. [];
  decode_into_raw_public_keys = λ encoded. none;
  system_account_nonce = λ a s. 0;
  payment_query_info = λ c x n s. "info";
  payment_query_fee_details = λ c x n s. "details";
  payment_weight_to_fee = λ c a. c.weight_to_fee (smaller a (maximum_block_weight weights));
  payment_length_to_fee = λ c n. c.length_to_fee (n, 0);
  payment_query_call_info = λ c x n s. "info";
  payment_query_call_fee_details = λ c x n s. "details";
  parachain_system_collect_collation_info = λ header s. "collation";
  executive_try_runtime_upgrade = λ checks s. some ((0, 0), s);
  executive_try_execute_block = λ block root signature select s. none;
  storage_info = "storage";
  whitelisted_storage_keys = "keys";
  list_benchmark = λ extra b. b.0 ∷ [];
  add_benchmark = λ config keys s b. one_batch (config str_eq b.0) config;
}

-- The smallest of the amounts, and the existential deposit if there are none.
abbrev least : List ℕ → ℕ
least [] = existential_deposit
least (n ∷ l) = min n (least l)

abbrev builder : GenesisBuilder ℕ ℕ String
builder = record {
  build_state = λ config s. elim config [
    | [] ↦ err "no genesis"
    | n ∷ endowed ↦ if leb existential_deposit (least endowed) then ok n else err "too little"
  ];
  get_preset_by = λ id find. elim id [ none ↦ some [] | some name ↦ find name ];
  to_json = λ config. config.parachain_id ∷ map (λ (e : AccountId × ℕ). e.1) config.balances;
}

abbrev libraries : Libraries ℕ String Pair ℕ String (Unit {0})
libraries = record {
  fixed_velocity = λ slot velocity capacity s hash at. true;
  frame = frame;
  builder = builder;
  helpers = helpers;
  presets = presets;
  limits = weights;
  defaults = defaults;
  fees = fees;
  time = time;
  api_versions = tt;
  features = record { try_runtime = false; runtime_benchmarks = true };
}

libraries-IsPaymentApi : IsPaymentApi libraries smaller
libraries-IsPaymentApi = record {
  ref_time-min = λ a b. refl;
  weight-capped = λ c a.
      ap (λ m. c.weight_to_fee (smaller a m))
        (sym (
          max_block-maximum weights weights-IsLimitApi
            (weights.from_parts (block_execution_weight time) 0)
            (weights.from_parts (extrinsic_base_weight time) 0) defaults refl));
  length-weighed = λ c n. refl;
}

-- A weight of more than a block, and a length of a hundred bytes.
fees_quoted_example :
    (answer libraries (Requests.query_weight_to_fee (3000000000000, 7)) 0
      ≡ Requests.replied (Requests.number 15999998000) 0)
    × (answer libraries (Requests.query_call_weight_to_fee (3000000000000, 7)) 0
        ≡ Requests.replied (Requests.number 15999998000) 0)
    × (15999998000 ≤ 15999998000)
    × (answer libraries (Requests.query_length_to_fee 100) 0
        ≡ Requests.replied (Requests.number (10 * micro_unit * 100)) 0)
    × (answer libraries (Requests.query_call_length_to_fee 100) 0
        ≡ Requests.replied (Requests.number (10 * micro_unit * 100)) 0)
fees_quoted_example =
    fees_quoted libraries weights-IsLimitApi fees-IsFeeApi smaller libraries-IsPaymentApi refl
      (3000000000000, 7) 100 0 (omega arith)

libraries-IsBenchmarkApi : IsBenchmarkApi libraries (λ config. config)
libraries-IsBenchmarkApi = record {
  skips = λ config keys s name p differ. elim (Bool-cases (config str_eq name)) [
    | inl t ↦ absurd (differ ((eq_iff config name).0 t))
    | inr f ↦ rw f refl
  ];
  runs = λ config keys s name p same. (config, [], rw ((eq_iff config name).1 same) refl);
}
