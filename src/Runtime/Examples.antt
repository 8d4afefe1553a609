-- ===== src/Runtime/Examples.antt =====
-- The theorem on the configuration of the market pallet (runtime/src/configs/mod.rs) at concrete
-- parameters.
use subtrate.Base.{◌≡◌, refl, true, some, List, [], ◌∷◌, arith}
use subtrate.Frame.Dispatch.{signed}
use subtrate.Frame.StorageMap
use subtrate.Frame.StorageDoubleMap
use subtrate.CustomPallet.Types.{Market, Config, Storage}
use subtrate.CustomPallet.Calls.{
  create_market_call, vote_call, dispatch, run_call, create_market, vote, vote_body, account_id,
  count_vote, creator_reward_of, reward_per_winner_of,
}
use subtrate.CustomPallet.Reach.{Happening, call_by, happen, run, genesis}
use subtrate.CustomPallet.Token.{Balances, token}
use subtrate.Runtime.Market.{market_config, markets_stake_nothing}

abbrev market : Config Balances
market = market_config token (λ bytes. 99) (λ votes. votes)

-- Account 9 opens a market, and 1 votes.
abbrev calls : List (Happening market)
calls =
    call_by (signed 9) (create_market_call (5 ∷ [])) ∷ call_by (signed 1) (vote_call 0 true) ∷ []

abbrev voted : Storage Balances
voted = run market calls (genesis market 10 (λ a. 100))

abbrev opened : Market
opened = record {
  creator = 9;
  end_block = 110;
  yes_votes = 1;
  no_votes = 0;
  total_staked = 0;
  is_active = true;
  metadata = 5 ∷ [];
  memes = [];
}

market_opened : (voted.market_count ≡ 1) × (StorageMap.get 0 voted.markets ≡ some opened)
unfolding market_config run happen dispatch run_call create_market vote vote_body account_id
    count_vote StorageMap.get StorageMap.insert StorageDoubleMap.get StorageDoubleMap.contains_key
    StorageDoubleMap.insert
market_opened = (refl, refl)

markets_stake_nothing_example :
    (opened.total_staked ≡ 0)
    × (creator_reward_of market opened.total_staked ≡ 0)
    × (reward_per_winner_of market opened ≡ 0)
markets_stake_nothing_example =
    markets_stake_nothing token (λ bytes. 99) (λ votes. votes) 10 (λ a. 100) calls 0 opened
      (omega (arith, market_opened.0)) market_opened.1
