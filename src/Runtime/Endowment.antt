-- ===== src/Runtime/Endowment.antt =====
-- What the genesis configuration of every preset satisfies
-- (runtime/src/genesis_config_presets.rs): what the pallets check when the chain is built.
use Prim.Native.String.{String}
use text.Mathlib.Text.{◌==◌ as ◌str_eq◌}
use text.Mathlib.TextEquality.{eq_iff}
use mathlib.Core.Bool.{true≢false}
use subtrate.Base.{
  ℕ, ◌+◌, ◌*◌, ◌≤◌, ◌≡◌, refl, sym, ap, ◌∙◌, ◌≢◌, Bool, true, Bool-cases, not, ◌&&◌, List, [], ◌∷◌,
  map, inl, inr, arith, length, u128_max,
}
use subtrate.Frame.Dispatch.{AccountId}
use subtrate.Runtime.Constants.{existential_deposit, max_invulnerables}
use subtrate.Runtime.Presets.{IsOneOf}
use subtrate.Runtime.Genesis.{
  RuntimeGenesisConfig, GenesisHelpers, SessionKeys, template_session_keys, endowment,
  testnet_genesis, local_testnet_genesis, development_config_genesis,
}

-- The value differs from all the entries of the list.
abbrev pub IsFresh : {A : Type 0} → A → List A → Type 0
IsFresh a [] = Unit
IsFresh a (b ∷ l) = (a ≢ b) × IsFresh a l

-- No value stands twice in the list.
abbrev pub IsDistinct : {A : Type 0} → List A → Type 0
IsDistinct [] = Unit
IsDistinct (a ∷ l) = IsFresh a l × IsDistinct l

abbrev fresh_seed : String → List String → Bool
fresh_seed s [] = true
fresh_seed s (t ∷ l) = not (s str_eq t) && fresh_seed s l

abbrev distinct_seeds : List String → Bool
distinct_seeds [] = true
distinct_seeds (s ∷ l) = fresh_seed s l && distinct_seeds l

-- The seeds of the endowed accounts.
abbrev pub seeds : List String
seeds =
    "Alice" ∷ "Bob" ∷ "Charlie" ∷ "Dave" ∷ "Eve" ∷ "Ferdie" ∷ "Alice//stash" ∷ "Bob//stash"
    ∷ "Charlie//stash" ∷ "Dave//stash" ∷ "Eve//stash" ∷ "Ferdie//stash" ∷ []

abbrev pub total : List (AccountId × ℕ) → ℕ
total [] = 0
total ((a, n) ∷ l) = n + total l

module _ {K : Type 0} (config : RuntimeGenesisConfig K) where
  -- The accounts with session keys, with the keys, and the validators of the sessions.
  abbrev pub collators_of : List (AccountId × K)
  collators_of = map (λ (k : AccountId × AccountId × SessionKeys K). (k.0, k.2.aura)) config.keys

  abbrev pub validators_of : List AccountId
  validators_of = map (λ (k : AccountId × AccountId × SessionKeys K). k.1) config.keys

-- Every entry is at least the existential deposit.
abbrev pub Funded : List (AccountId × ℕ) → Type 0
Funded [] = Unit
Funded ((a, n) ∷ l) = (existential_deposit ≤ n) × Funded l

endowed-Funded : (l : List AccountId) → Funded (map (λ k. (k, endowment)) l)
endowed-Funded [] = tt
endowed-Funded (a ∷ l) = (omega arith, endowed-Funded l)

-- `pallet_balances`, `pallet_collator_selection` and `pallet_session` refuse a genesis without
-- these.
pub record IsBuildable {K : Type 0} (config : RuntimeGenesisConfig K) : Type 0 where
  pub funded : Funded config.balances
  pub once : IsDistinct (map (λ (e : AccountId × ℕ). e.0) config.balances)
  pub issuance : total config.balances ≤ u128_max
  pub collators : IsDistinct config.invulnerables
  pub keyed : IsDistinct (map (λ (k : AccountId × AccountId × SessionKeys K). k.2.aura) config.keys)
  pub few : length config.invulnerables ≤ max_invulnerables

module _ {A : Type 0} (f : String → A) (known : List String)
    (injective : (s t : String) → IsOneOf s known → IsOneOf t known → f s ≡ f t → s ≡ t) where
  IsFresh-map :
      (s : String) (l : List String)
      → IsOneOf s known
      → ((t : String) → IsOneOf t l → IsOneOf t known)
      → fresh_seed s l ≡ true
      → IsFresh (f s) (map f l)
  IsFresh-map s [] m ms h = tt
  IsFresh-map s (t ∷ l) m ms h =
      let same = eq_iff s t in
      elim (Bool-cases (s str_eq t)) [
        | inl e ↦ grind arith
        | inr e ↦ (
          λ p. true≢false (sym (same.1 (injective s t m (ms t (inl refl)) p)) ∙ e),
          IsFresh-map s l m (λ u n. ms u (inr n)) (grind arith),
        )
      ]

  IsDistinct-map :
      (l : List String)
      → ((t : String) → IsOneOf t l → IsOneOf t known)
      → distinct_seeds l ≡ true
      → IsDistinct (map f l)
  IsDistinct-map [] ms h = tt
  IsDistinct-map (s ∷ l) ms h = elim (Bool-cases (fresh_seed s l)) [
    | inl e ↦
        let ms' : (t : String) → IsOneOf t l → IsOneOf t known = λ t n. ms t (inr n) in
        (IsFresh-map s l (ms s (inl refl)) ms' e, IsDistinct-map l ms' (grind arith))
    | inr e ↦ grind arith
  ]

first_two : (t : String) → IsOneOf t ("Alice" ∷ "Bob" ∷ []) → IsOneOf t seeds
first_two t (inl e) = inl e
first_two t (inr (inl e)) = inr (inl e)
first_two t (inr (inr x)) = elim x [ ]

module _ {K : Type 0} (g : GenesisHelpers K)
    (injective : (s t : String)
      → IsOneOf s seeds
      → IsOneOf t seeds
      → g.get_account_id_from_seed s ≡ g.get_account_id_from_seed t
      → s ≡ t)
    (keyed : g.get_collator_keys_from_seed "Alice" ≢ g.get_collator_keys_from_seed "Bob") where
  local-IsBuildable : IsBuildable (local_testnet_genesis g)
  unfolding local_testnet_genesis testnet_genesis template_session_keys
  local-IsBuildable = record {
    funded = endowed-Funded (map g.get_account_id_from_seed seeds);
    once = IsDistinct-map g.get_account_id_from_seed seeds injective seeds (λ t m. m) refl;
    issuance = omega arith;
    collators =
        IsDistinct-map g.get_account_id_from_seed seeds injective ("Alice" ∷ "Bob" ∷ []) first_two
          refl;
    keyed = ((keyed, tt), (tt, tt));
    few = omega arith;
  }

  development-IsBuildable : IsBuildable (development_config_genesis g)
  unfolding development_config_genesis testnet_genesis template_session_keys
  development-IsBuildable = record {
    funded = endowed-Funded (map g.get_account_id_from_seed seeds);
    once = IsDistinct-map g.get_account_id_from_seed seeds injective seeds (λ t m. m) refl;
    issuance = omega arith;
    collators =
        IsDistinct-map g.get_account_id_from_seed seeds injective ("Alice" ∷ "Bob" ∷ []) first_two
          refl;
    keyed = ((keyed, tt), (tt, tt));
    few = omega arith;
  }

  -- The genesis of both presets is one that the balances and the collator selection pallets accept:
  -- no account is endowed twice, each gets at least the existential deposit, the issuance fits in a
  -- balance, no collator stands twice among at most `MaxInvulnerables`, and no session key does.
  -- The seeds of the genesis are taken to give different accounts and keys.
  pub presets-IsBuildable :
      IsBuildable (local_testnet_genesis g) × IsBuildable (development_config_genesis g)
  presets-IsBuildable = (local-IsBuildable, development-IsBuildable)

module _ {K : Type 0} (g : GenesisHelpers K) (root : AccountId) (id : ℕ) where
  keys_of :
      (collators : List (AccountId × K)) (endowed : List AccountId)
      → let config = testnet_genesis g collators endowed root id in
        (collators_of config ≡ collators) × (validators_of config ≡ config.invulnerables)
  unfolding testnet_genesis template_session_keys
  keys_of [] endowed = (refl, refl)
  keys_of ((a, k) ∷ collators) endowed =
      let (rest, rest') = keys_of collators endowed in (ap ((a, k) ∷◌) rest, ap (a ∷◌) rest')

  total_of :
      (collators : List (AccountId × K)) (endowed : List AccountId)
      → total (testnet_genesis g collators endowed root id).balances ≡ length endowed * endowment
  unfolding testnet_genesis
  total_of collators [] = refl
  total_of collators (a ∷ endowed) = let rest = total_of collators endowed in omega arith

  -- A genesis has the session keys of exactly the given collators, each validating under the
  -- account that is invulnerable, and its issuance is the endowment times the endowed accounts.
  pub testnet_genesis_lem :
      (collators : List (AccountId × K)) (endowed : List AccountId)
      → let config = testnet_genesis g collators endowed root id in
        (collators_of config ≡ collators)
        × (validators_of config ≡ config.invulnerables)
        × (total config.balances ≡ length endowed * endowment)
  testnet_genesis_lem collators endowed =
      let (keys, validators) = keys_of collators endowed in
      (keys, validators, total_of collators endowed)
