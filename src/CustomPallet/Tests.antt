-- ===== src/CustomPallet/Tests.antt =====
-- The market pallet (pallets/custom-pallet/src/lib.rs) on a small history.
use subtrate.Base.{◌≡◌, refl, true, false, some, List, [], ◌∷◌, arith}
use subtrate.Frame.Dispatch.{signed}
use subtrate.Frame.StorageMap
use subtrate.Frame.StorageDoubleMap
use subtrate.CustomPallet.Types.{Market, Config, Storage}
use subtrate.CustomPallet.Calls.{
  create_market_call, vote_call, create_meme_call, dispatch, run_call, call_body, create_market,
  vote, vote_body, release_rewards, release_rewards_body, create_meme, account_id, count_vote,
  distribute, pay, pay_winners, iter_votes, creator_reward_of, yes_wins_in, winner_count_of,
  reward_per_winner_of,
}
use subtrate.CustomPallet.Reach.{Happening, call_by, block, happen, run, genesis, run-IsValid}
use subtrate.CustomPallet.Invariant.{IsValid}
use subtrate.CustomPallet.Token.{Balances, token}

abbrev pub config : Config Balances
config = record {
  currency = token;
  pallet_id = 7 ∷ [];
  vote_cost = 40;
  creator_reward_percentage = 5;
  market_duration = 1;
  into_account_truncating = λ bytes. 99;
  storage_order = λ votes. votes;
}

abbrev pub hundred : Balances
hundred a = 100

-- Account 9 opens a market; 1 and 2 vote yes, 3 votes no.
abbrev pub votes_cast : List (Happening config)
votes_cast =
    call_by (signed 9) (create_market_call (5 ∷ []))
    ∷ call_by (signed 1) (vote_call 0 true)
    ∷ call_by (signed 2) (vote_call 0 true)
    ∷ call_by (signed 2) (vote_call 0 false)
    ∷ call_by (signed 3) (vote_call 0 false)
    ∷ call_by (signed 1) (create_meme_call 0 (1 ∷ 2 ∷ []))
    ∷ []

abbrev pub voted : Storage Balances
voted = run config votes_cast (genesis config 10 hundred)

-- The end block of the market is 11.
abbrev pub ripe : Storage Balances
ripe = run config (block ∷ block ∷ []) voted

abbrev pub opened : Storage Balances
opened =
    run config (call_by (signed 9) (create_market_call (5 ∷ [])) ∷ []) (genesis config 10 hundred)

-- The market as it stands when its rewards are due.
abbrev pub due : Market
due = record {
  creator = 9;
  end_block = 11;
  yes_votes = 2;
  no_votes = 1;
  total_staked = 120;
  is_active = true;
  metadata = 5 ∷ [];
  memes = record { creator = 1; cid = 1 ∷ 2 ∷ []; meme_template = 0 } ∷ [];
}

-- What a run of the pallet looks through.
unfoldable pub evaluation : Unit {0}
unfolding run happen dispatch run_call call_body create_market vote vote_body release_rewards
    release_rewards_body create_meme account_id count_vote distribute pay pay_winners iter_votes
    creator_reward_of yes_wins_in winner_count_of reward_per_winner_of StorageMap.get
    StorageMap.insert StorageDoubleMap.get StorageDoubleMap.contains_key StorageDoubleMap.insert
    StorageDoubleMap.prefix
evaluation = tt

due_lem : StorageMap.get 0 ripe.markets ≡ some due
unfolding evaluation
due_lem = refl

-- Account 9 pays nothing and gets 5 % of 120; 1 and 2 get half of the rest each.
released_balances :
    let l = (release_rewards config (signed 3) 0 ripe).1.ledger in
    (l 1 ≡ 117) × (l 2 ≡ 117) × (l 3 ≡ 60) × (l 9 ≡ 106) × (l 99 ≡ 100)
unfolding evaluation
released_balances = (refl, refl, refl, refl, refl)

ripe-count : ripe.market_count ≡ 1
unfolding evaluation
ripe-count = refl

voted-IsValid : IsValid config voted
voted-IsValid = run-IsValid config 10 hundred votes_cast (unfold evaluation in omega arith)
