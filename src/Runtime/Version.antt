-- ===== src/Runtime/Version.antt =====
-- The version of the runtime (`VERSION` and `native_version` of runtime/src/lib.rs). The versions
-- of the runtime APIs are computed by `impl_runtime_apis!`, of type `A`.
use Prim.Native.String.{String}
use subtrate.Base.{ℕ, List, []}

pub record RuntimeVersion (A : Type 0) : Type 0 where
  pub spec_name : String
  pub impl_name : String
  pub authoring_version : ℕ
  pub spec_version : ℕ
  pub impl_version : ℕ
  pub apis : A
  pub transaction_version : ℕ
  pub state_version : ℕ

pub record NativeVersion (A : Type 0) : Type 0 where
  pub runtime_version : RuntimeVersion A
  -- the default of a set: empty
  pub can_author_with : List ℕ

unfoldable pub version : {A : Type 0} → A → RuntimeVersion A
version runtime_api_versions = record {
  spec_name = "parachain-template-runtime";
  impl_name = "parachain-template-runtime";
  authoring_version = 1;
  spec_version = 1;
  impl_version = 0;
  apis = runtime_api_versions;
  transaction_version = 1;
  state_version = 1;
}

unfoldable pub native_version : {A : Type 0} → A → NativeVersion A
native_version runtime_api_versions = record {
  runtime_version = version runtime_api_versions;
  can_author_with = [];
}
