-- ===== src/Runtime/Market.antt =====
-- The market pallet as the runtime configures it (`impl custom_pallet::Config for Runtime` of
-- runtime/src/configs/mod.rs).
use mathlib.Core.Path.{subst}
use native.Mathlib.Nat.{zero-div}
use subtrate.Base.{ℕ, ◌<◌, ◌≡◌, Bool, some, List, [], ◌∷◌, arith, u32_max}
use subtrate.Frame.Dispatch.{AccountId}
use subtrate.Frame.StorageMap
use subtrate.Frame.StorageDoubleMap
use subtrate.Frame.Currency.{Currency}
use subtrate.CustomPallet.Types.{Market, Config}
use subtrate.CustomPallet.Calls.{
  creator_reward_of, winner_count_of, yes_wins_in, reward_per_winner_of,
}
use subtrate.CustomPallet.Invariant.{MarketOk}
use subtrate.CustomPallet.Reach.{Happening, run, genesis, run-IsValid}

-- `*b"pred/mkt"`
abbrev pub prediction_market_pallet_id : List ℕ
prediction_market_pallet_id = 112 ∷ 114 ∷ 101 ∷ 100 ∷ 47 ∷ 109 ∷ 107 ∷ 116 ∷ []

abbrev pub vote_cost : ℕ
vote_cost = 0

abbrev pub creator_reward_percentage : ℕ
creator_reward_percentage = 5

abbrev pub market_duration : ℕ
market_duration = 100

module _ {L : Type 0} (balances : Currency L) (into_account : List ℕ → AccountId)
    (order : List (AccountId × Bool) → List (AccountId × Bool)) where
  unfoldable pub market_config : Config L
  market_config = record {
    currency = balances;
    pallet_id = prediction_market_pallet_id;
    vote_cost = vote_cost;
    creator_reward_percentage = creator_reward_percentage;
    market_duration = market_duration;
    into_account_truncating = into_account;
    storage_order = order;
  }

  no_stake_no_reward :
      (k : Market)
      → k.total_staked ≡ 0
      → (creator_reward_of market_config k.total_staked ≡ 0)
        × (reward_per_winner_of market_config k ≡ 0)
  unfolding market_config creator_reward_of reward_per_winner_of winner_count_of yes_wins_in
  no_stake_no_reward k h =
      let nothing = zero-div (winner_count_of market_config k) in (omega arith, rw h (ground arith))

  -- As the runtime configures the pallet, no market ever has a stake, whatever has been voted, and
  -- so a release owes nothing to the creator and nothing to a winner: this holds of every market
  -- after any run from the empty storage that has not used up the market identifiers.
  pub markets_stake_nothing :
      (block_number : ℕ) (l : L) (hs : List (Happening market_config)) (m : ℕ) (k : Market)
      → (run market_config hs (genesis market_config block_number l)).market_count < u32_max
      → StorageMap.get m (run market_config hs (genesis market_config block_number l)).markets
        ≡ some k
      → (k.total_staked ≡ 0)
        × (creator_reward_of market_config k.total_staked ≡ 0)
        × (reward_per_winner_of market_config k ≡ 0)
  unfolding market_config
  markets_stake_nothing block_number l hs m k room found =
      let valid = run-IsValid market_config block_number l hs room in
      let s = run market_config hs (genesis market_config block_number l) in
      let agrees : MarketOk 0 (some k) (StorageDoubleMap.prefix m s.votes) =
        subst (λ o. MarketOk 0 o (StorageDoubleMap.prefix m s.votes)) found (valid.markets_ok m) in
      let none_staked : k.total_staked ≡ 0 = omega (arith, agrees.staked) in
      let (creator, winner) = no_stake_no_reward k none_staked in (none_staked, creator, winner)
