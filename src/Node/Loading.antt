-- ===== src/Node/Loading.antt =====
-- Which chain specification the node runs (`load_spec` of node/src/command.rs).
use Prim.Native.String.{String}
use text.Mathlib.Text.{◌==◌ as ◌str_eq◌}
use text.Mathlib.TextEquality.{eq_iff}
use mathlib.Core.Bool.{true≢false}
use subtrate.Base.{
  ◌≡◌, refl, sym, ap, ◌∙◌, ◌≢◌, ◌⊎◌, inl, inr, arith, Bool-cases, Option-cases, some, ℕ, Option,
  List,
}
use subtrate.Frame.Dispatch.{Result, ok, err}
use subtrate.Runtime.Genesis.{RuntimeGenesisConfig, GenesisHelpers, local_testnet_genesis}
use subtrate.Runtime.Presets.{PresetApi, preset_of, local_preset, local_id, dev_preset}
use subtrate.Node.ChainSpec.{
  ChainSpec, development_config, local_testnet_config, development_spec, local_testnet_spec,
}
use subtrate.Node.Effects.{done, panicked, of_result}
use subtrate.Node.Command.{load_spec}

-- The identifiers of the specifications that are part of the program.
abbrev pub IsBuiltin : String → Type 0
IsBuiltin id = (id ≡ "dev") ⊎ ((id ≡ "template-rococo") ⊎ ((id ≡ "") ⊎ (id ≡ "local")))

is_text? : (s t : String) → (s ≡ t) ⊎ (s ≢ t)
is_text? s t =
    let same = eq_iff s t in
    elim (Bool-cases (s str_eq t)) [
      | inl e ↦ inl (same.0 e)
      | inr e ↦ inr (λ p. true≢false (sym (same.1 p) ∙ e))
    ]

is_builtin? : (id : String) → IsBuiltin id ⊎ (¬ (IsBuiltin id))
is_builtin? id = elim (is_text? id "dev") [
  | inl p ↦ inl (inl p)
  | inr n ↦ elim (is_text? id "template-rococo") [
    | inl p ↦ inl (inr (inl p))
    | inr n' ↦ elim (is_text? id "") [
      | inl p ↦ inl (inr (inr (inl p)))
      | inr k ↦ elim (is_text? id "local") [
        | inl p ↦ inl (inr (inr (inr p)))
        | inr k' ↦ inr (λ b. elim b [
          | inl p ↦ n p
          | inr (inl p) ↦ n' p
          | inr (inr (inl p)) ↦ k p
          | inr (inr (inr p)) ↦ k' p
        ])
      ]
    ]
  ]
]

module _ {P : Type 0} (api : PresetApi P) (wasm : Option (List ℕ))
    (from_json_file : String → Result String ChainSpec) where
  -- A built-in specification, or the file.
  abbrev pub Loads : String → Type 0
  Loads id =
      (load_spec api wasm from_json_file id ≡ development_config api wasm)
      ⊎ (load_spec api wasm from_json_file id ≡ local_testnet_config api wasm)

  load_spec-file :
      (id : String)
      → ¬ (IsBuiltin id)
      → load_spec api wasm from_json_file id ≡ of_result (from_json_file id)
  unfolding load_spec
  load_spec-file id other =
      let one = eq_iff id "dev" in
      let two = eq_iff id "template-rococo" in
      let three = eq_iff id "" in
      let four = eq_iff id "local" in
      elim (Bool-cases (id str_eq "dev")) [
        | inl h ↦ elim (other (inl (one.0 h))) [ ]
        | inr h ↦ elim (Bool-cases (id str_eq "template-rococo")) [
          | inl h' ↦ elim (other (inr (inl (two.0 h')))) [ ]
          | inr h' ↦ elim (Bool-cases (id str_eq "")) [
            | inl k ↦ elim (other (inr (inr (inl (three.0 k))))) [ ]
            | inr k ↦ elim (Bool-cases (id str_eq "local")) [
              | inl k' ↦ elim (other (inr (inr (inr (four.0 k'))))) [ ]
              | inr k' ↦ rw (h, h', k, k') refl
            ]
          ]
        ]
      ]

  pub load_spec-builtin : (id : String) → IsBuiltin id → Loads id
  unfolding load_spec
  load_spec-builtin id (inl e) = inl (ap (load_spec api wasm from_json_file) e)
  load_spec-builtin id (inr (inl e)) = inr (ap (load_spec api wasm from_json_file) e)
  load_spec-builtin id (inr (inr (inl e))) = inr (ap (load_spec api wasm from_json_file) e)
  load_spec-builtin id (inr (inr (inr e))) = inr (ap (load_spec api wasm from_json_file) e)

  of_result-ne_panicked : (r : Result String ChainSpec) → of_result r ≢ panicked
  of_result-ne_panicked (ok spec) h = ground arith
  of_result-ne_panicked (err e) h = ground arith

  -- Loading panics only in a build without the code of the runtime.
  pub load_spec-ne_panicked :
      (id : String) (code : List ℕ)
      → wasm ≡ some code
      → load_spec api wasm from_json_file id ≢ panicked
  unfolding development_config local_testnet_config
  load_spec-ne_panicked id code has h = elim (is_builtin? id) [
    | inl b ↦ elim (load_spec-builtin id b) [ inl l ↦ ground arith | inr l ↦ ground arith ]
    | inr n ↦ of_result-ne_panicked (from_json_file id) (sym (load_spec-file id n) ∙ h)
  ]

  pub load_spec-code :
      (id : String) {spec : ChainSpec}
      → IsBuiltin id
      → load_spec api wasm from_json_file id ≡ done spec
      → (code : List ℕ) × (wasm ≡ some code)
  unfolding development_config local_testnet_config
  load_spec-code id b loaded = elim (Option-cases wasm) [
    | inl none_built ↦ elim (load_spec-builtin id b) [
      | inl l ↦ absurd (ground arith)
      | inr l ↦ absurd (ground arith)
    ]
    | inr found ↦ found
  ]

  -- A specification is there in a build with the code, where files hold one.
  pub load_spec-done :
      (id : String) (code : List ℕ)
      → wasm ≡ some code
      → (spec : ChainSpec) × (from_json_file id ≡ ok spec)
      → (spec : ChainSpec) × (load_spec api wasm from_json_file id ≡ done spec)
  unfolding development_config local_testnet_config
  load_spec-done id code has (spec, read) = elim (is_builtin? id) [
    | inl b ↦ elim (load_spec-builtin id b) [
      | inl l ↦ (development_spec api code, l ∙ ap (development_config api) has)
      | inr l ↦ (local_testnet_spec api code, l ∙ ap (local_testnet_config api) has)
    ]
    | inr n ↦ (spec, load_spec-file id n ∙ ap of_result read)
  ]

  -- With the code of the runtime every built-in name loads a specification that names an existing
  -- genesis preset, and the parachain identifier of its extension is the one which that genesis
  -- gives to the runtime.
  pub load_spec-para_id :
      {K : Type 0} (g : GenesisHelpers K) (id : String) (code : List ℕ)
      → IsBuiltin id
      → wasm ≡ some code
      → (spec : ChainSpec) × (config : RuntimeGenesisConfig K) × (load_spec api wasm from_json_file
            id
          ≡ done spec)
        × (preset_of g api (some spec.genesis_preset) ≡ some config)
        × (config.parachain_id ≡ spec.extensions.para_id)
  unfolding development_config local_testnet_config
  load_spec-para_id g id code b has =
      let (config, found, number) = dev_preset g api in
      elim (load_spec-builtin id b) [
        | inl l ↦
            (development_spec api code, config, l ∙ ap (development_config api) has, found, number)
        | inr l ↦ (
          local_testnet_spec api code,
          local_testnet_genesis g,
          l ∙ ap (local_testnet_config api) has,
          local_preset g api,
          local_id g,
        )
      ]
