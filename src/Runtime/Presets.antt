-- ===== src/Runtime/Presets.antt =====
-- The genesis presets that the runtime offers by name (`get_preset` and `preset_names` of
-- runtime/src/genesis_config_presets.rs).
use Prim.Native.String.{String}
use text.Mathlib.TextEquality.{eq_iff}
use text.Mathlib.TextPositions.{eq_refl}
use text.Mathlib.Text.{◌==◌ as ◌str_eq◌}
use mathlib.Core.Option
use subtrate.Base.{
  ℕ, ◌≡◌, refl, sym, arith, ◌⊎◌, inl, inr, ◌↔◌, ap, ◌∙◌, Bool-cases, Option-cases, Option, none,
  some, List, [], ◌∷◌, if◌then◌else◌,
}
use subtrate.Runtime.Genesis.{
  RuntimeGenesisConfig, GenesisHelpers, testnet_genesis, local_testnet_genesis,
  development_config_genesis,
}

-- sp-genesis-builder: identifiers of type `P`, which are strings where they are valid text, and
-- the names of the two usual presets.
pub record PresetApi (P : Type 0) : Type 0 where
  pub try_into : P → Option String
  pub from : String → P
  pub dev_runtime_preset : String
  pub local_testnet_runtime_preset : String

-- Some entry of a list is the given one.
abbrev pub IsOneOf : {P : Type 0} → P → List P → Type 0
IsOneOf id [] = ⊥
IsOneOf id (p ∷ ps) = (id ≡ p) ⊎ IsOneOf id ps

module _ {K P : Type 0} (g : GenesisHelpers K) (api : PresetApi P) where
  -- The preset of a name.
  unfoldable pub preset_of : Option String → Option (RuntimeGenesisConfig K)
  preset_of none = none
  preset_of (some name) =
      if name str_eq api.local_testnet_runtime_preset
      then some (local_testnet_genesis g)
      else (if name str_eq api.dev_runtime_preset
          then some (development_config_genesis g)
          else none)

  -- `get_preset`, by the serialisation of a configuration to JSON.
  unfoldable pub get_preset : (RuntimeGenesisConfig K → List ℕ) → P → Option (List ℕ)
  get_preset to_json id = Option.map to_json (preset_of (api.try_into id))

module _ {P : Type 0} (api : PresetApi P) where
  unfoldable pub preset_names : List P
  preset_names = api.from api.dev_runtime_preset ∷ api.from api.local_testnet_runtime_preset ∷ []

module _ {K : Type 0} (g : GenesisHelpers K) where
  pub local_id : (local_testnet_genesis g).parachain_id ≡ 1000
  unfolding local_testnet_genesis testnet_genesis
  local_id = refl

  development_id : (development_config_genesis g).parachain_id ≡ 1000
  unfolding development_config_genesis testnet_genesis
  development_id = refl

module _ {K P : Type 0} (g : GenesisHelpers K) (api : PresetApi P) where
  preset_of-named :
      (name : String) (config : RuntimeGenesisConfig K)
      → preset_of g api (some name) ≡ some config
      → (name ≡ api.dev_runtime_preset) ⊎ (name ≡ api.local_testnet_runtime_preset)
  unfolding preset_of
  preset_of-named name config h =
      let same = eq_iff name api.local_testnet_runtime_preset in
      let same' = eq_iff name api.dev_runtime_preset in
      elim (Bool-cases (name str_eq api.local_testnet_runtime_preset)) [
        | inl e ↦ inr (same.0 e)
        | inr e ↦ elim (Bool-cases (name str_eq api.dev_runtime_preset)) [
          | inl e' ↦ inl (same'.0 e')
          | inr e' ↦ grind arith
        ]
      ]

  no_name :
      (to_json : RuntimeGenesisConfig K → List ℕ) → Option.map to_json (preset_of g api none) ≡ none
  unfolding preset_of
  no_name to_json = refl

  pub local_preset :
      preset_of g api (some api.local_testnet_runtime_preset) ≡ some (local_testnet_genesis g)
  unfolding preset_of
  local_preset = let same = eq_refl api.local_testnet_runtime_preset in grind arith

  -- If both presets have one name, the local one is meant.
  pub dev_preset :
      (config : RuntimeGenesisConfig K) × (preset_of g api (some api.dev_runtime_preset)
        ≡ some config)
      × (config.parachain_id ≡ 1000)
  unfolding preset_of
  dev_preset =
      let same = eq_refl api.dev_runtime_preset in
      elim (Bool-cases (api.dev_runtime_preset str_eq api.local_testnet_runtime_preset)) [
        | inl e ↦ (local_testnet_genesis g, grind arith, local_id g)
        | inr e ↦ (development_config_genesis g, grind arith, development_id g)
      ]

-- A preset exists exactly if its name is one of those that `preset_names` lists, where the
-- identifiers are the strings that they contain.
pub get_preset-some_iff :
    {K P : Type 0} (g : GenesisHelpers K) (api : PresetApi P)
    → ((name : String) → api.try_into (api.from name) ≡ some name)
    → ((id : P) (name : String) → api.try_into id ≡ some name → id ≡ api.from name)
    → (to_json : RuntimeGenesisConfig K → List ℕ) (id : P)
    → ((bytes : List ℕ) × (get_preset g api to_json id ≡ some bytes))
      ↔ IsOneOf id (preset_names api)
unfolding get_preset preset_names
get_preset-some_iff g api into_from from_into to_json id = (
  λ (bytes, e). elim (Option-cases (api.try_into id)) [
    | inl h ↦
        let none_is_some =
          sym (no_name g api to_json)
          ∙ sym (ap (λ n. Option.map to_json (preset_of g api n)) h)
          ∙ e in
        grind arith
    | inr (name, h) ↦ elim (Option-cases (preset_of g api (some name))) [
      | inl h' ↦ grind arith
      | inr (config, h') ↦ elim (preset_of-named g api name config h') [
        | inl n ↦ inl (from_into id name h ∙ ap api.from n)
        | inr n ↦ inr (inl (from_into id name h ∙ ap api.from n))
      ]
    ]
  ],
  λ m. elim m [
    | inl p ↦
        let found = ap api.try_into p ∙ into_from api.dev_runtime_preset in
        let (config, e, _) = dev_preset g api in
        (
          to_json config,
          ap (λ n. Option.map to_json (preset_of g api n)) found ∙ ap (Option.map to_json) e,
        )
    | inr (inl p) ↦
        let found = ap api.try_into p ∙ into_from api.local_testnet_runtime_preset in
        (
          to_json (local_testnet_genesis g),
          ap (λ n. Option.map to_json (preset_of g api n)) found
              ∙ ap (Option.map to_json) (local_preset g api),
        )
    | inr (inr x) ↦ elim x [ ]
  ],
)
