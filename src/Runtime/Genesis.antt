-- ===== src/Runtime/Genesis.antt =====
-- The genesis configuration of the runtime (runtime/src/genesis_config_presets.rs). The keys of
-- the collators, of type `K`, and the accounts are derived from seeds by the libraries.
use Prim.Native.String.{String}
use subtrate.Base.{ℕ, ◌*◌, Option, some, List, [], ◌∷◌, map}
use subtrate.Frame.Dispatch.{AccountId}
use subtrate.Runtime.Constants.{existential_deposit}

pub record SessionKeys (K : Type 0) : Type 0 where
  pub aura : K

-- The fields that the code sets; the others keep the defaults of their pallets.
pub record RuntimeGenesisConfig (K : Type 0) : Type 0 where
  pub balances : List (AccountId × ℕ)
  pub parachain_id : ℕ
  pub invulnerables : List AccountId
  pub candidacy_bond : ℕ
  -- account, validator, session keys
  pub keys : List (AccountId × AccountId × SessionKeys K)
  pub safe_xcm_version : Option ℕ
  pub sudo_key : Option AccountId

-- What the libraries give: the derivations from a seed, and the current version of XCM.
pub record GenesisHelpers (K : Type 0) : Type 0 where
  pub get_account_id_from_seed : String → AccountId
  pub get_collator_keys_from_seed : String → K
  pub xcm_version : ℕ

-- `1u128 << 60`
abbrev pub endowment : ℕ
endowment = 1152921504606846976

module _ {K : Type 0} where
  unfoldable pub template_session_keys : K → SessionKeys K
  template_session_keys keys = record { aura = keys }

  unfoldable pub testnet_genesis :
      GenesisHelpers K
      → List (AccountId × K)
      → List AccountId
      → AccountId
      → ℕ
      → RuntimeGenesisConfig K
  testnet_genesis g invulnerables endowed_accounts root id = record {
    balances = map (λ k. (k, endowment)) endowed_accounts;
    parachain_id = id;
    invulnerables = map (λ (c : AccountId × K). c.0) invulnerables;
    candidacy_bond = existential_deposit * 16;
    keys = map (λ (c : AccountId × K). (c.0, c.0, template_session_keys c.1)) invulnerables;
    safe_xcm_version = some g.xcm_version;
    sudo_key = some root;
  }

  module _ (g : GenesisHelpers K) where
    abbrev account : String → AccountId
    account seed = g.get_account_id_from_seed seed

    unfoldable pub local_testnet_genesis : RuntimeGenesisConfig K
    local_testnet_genesis =
        testnet_genesis g
          ((account "Alice", g.get_collator_keys_from_seed "Alice")
            ∷ (account "Bob", g.get_collator_keys_from_seed "Bob")
            ∷ [])
          (account "Alice"
            ∷ account "Bob"
            ∷ account "Charlie"
            ∷ account "Dave"
            ∷ account "Eve"
            ∷ account "Ferdie"
            ∷ account "Alice//stash"
            ∷ account "Bob//stash"
            ∷ account "Charlie//stash"
            ∷ account "Dave//stash"
            ∷ account "Eve//stash"
            ∷ account "Ferdie//stash"
            ∷ [])
          (account "Alice") 1000

    unfoldable pub development_config_genesis : RuntimeGenesisConfig K
    development_config_genesis =
        testnet_genesis g
          ((account "Alice", g.get_collator_keys_from_seed "Alice")
            ∷ (account "Bob", g.get_collator_keys_from_seed "Bob")
            ∷ [])
          (account "Alice"
            ∷ account "Bob"
            ∷ account "Charlie"
            ∷ account "Dave"
            ∷ account "Eve"
            ∷ account "Ferdie"
            ∷ account "Alice//stash"
            ∷ account "Bob//stash"
            ∷ account "Charlie//stash"
            ∷ account "Dave//stash"
            ∷ account "Eve//stash"
            ∷ account "Ferdie//stash"
            ∷ [])
          (account "Alice") 1000
