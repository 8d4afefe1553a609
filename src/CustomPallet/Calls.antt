-- ===== src/CustomPallet/Calls.antt =====
-- The dispatchable calls of the market pallet and its helpers, line by line from
-- `impl<T: Config> Pallet<T>` of pallets/custom-pallet/src/lib.rs.
use subtrate.Base.{
  ℕ, Bool, true, false, not, Option, List, [], ◌∷◌, ◌++◌, ltb, leb, bool_eq, if◌then◌else◌, u32_max,
  u128_max, saturating_add, saturating_mul, saturating_sub, checked_div, unwrap_or,
}
use mathlib.Core.Option
use subtrate.Frame.Dispatch.{
  AccountId, Origin, ok, err, currency_error, gets, modify, ensure, ensure_signed, ok_or,
  transactional, try_bound, ◌>>=◌, ◌>>◌,
}
use subtrate.Frame.StorageMap
use subtrate.Frame.StorageDoubleMap
use subtrate.Frame.Currency.{ExistenceRequirement, keep_alive, allow_death}
use subtrate.CustomPallet.Types.{
  Meme, Market, market_created, vote_cast, rewards_distributed, meme_created, market_does_not_exist,
  market_not_active, market_still_active, already_voted, metadata_too_long, meme_list_full,
  invalid_cid, Config, Storage, Call, deposit_event, max_metadata_len, max_cid_len, max_memes,
}

module _ {L : Type 0} (c : Config L) where
  unfoldable pub account_id : AccountId
  account_id = c.into_account_truncating c.pallet_id

  unfoldable pub create_market : Origin → List ℕ → Call L (Unit {0})
  create_market origin metadata = do
    creator ← ensure_signed origin
    market_id ← gets (λ s. s.market_count)
    now ← gets (λ s. s.block_number)
    let end_block = saturating_add u32_max now c.market_duration
    bounded_metadata ← ok_or (try_bound max_metadata_len metadata) metadata_too_long
    let market : Market = record {
      creator = creator;
      end_block = end_block;
      yes_votes = 0;
      no_votes = 0;
      total_staked = 0;
      is_active = true;
      metadata = bounded_metadata;
      memes = [];
    }
    modify (λ s. record s { markets = StorageMap.insert market_id market s.markets })
    modify (λ s. record s { market_count = saturating_add u32_max market_id 1 })
    deposit_event (market_created market_id creator end_block bounded_metadata)

  -- `T::Currency::transfer(..)?`
  abbrev pub transfer : AccountId → AccountId → ℕ → ExistenceRequirement → Call L (Unit {0})
  transfer from to amount requirement s =
      let (r, l) = c.currency.transfer from to amount requirement s.ledger in
      (elim r [ ok _ ↦ ok tt | err e ↦ err (currency_error e) ], record s { ledger = l })

  -- The vote's effect on the market's counters.
  unfoldable pub count_vote : Bool → Market → Market
  count_vote vote_yes market =
      let counted : Market =
        if vote_yes
        then record market { yes_votes = saturating_add u32_max market.yes_votes 1 }
        else record market { no_votes = saturating_add u32_max market.no_votes 1 } in
      record counted { total_staked = saturating_add u128_max market.total_staked c.vote_cost }

  unfoldable pub vote_body : Origin → ℕ → Bool → Call L (Unit {0})
  vote_body origin market_id vote_yes = do
    voter ← ensure_signed origin
    found ← gets (λ s. StorageMap.get market_id s.markets)
    market ← ok_or found market_does_not_exist
    ensure market.is_active market_not_active
    now ← gets (λ s. s.block_number)
    ensure (leb now market.end_block) market_not_active
    voted ← gets (λ s. StorageDoubleMap.contains_key market_id voter s.votes)
    ensure (not voted) already_voted
    transfer voter account_id c.vote_cost keep_alive
    modify (λ s. record s {
      markets = StorageMap.insert market_id (count_vote vote_yes market) s.markets;
    })
    modify (λ s. record s { votes = StorageDoubleMap.insert market_id voter vote_yes s.votes })
    deposit_event (vote_cast market_id voter vote_yes)

  unfoldable pub vote : Origin → ℕ → Bool → Call L (Unit {0})
  vote origin market_id vote_yes = transactional (vote_body origin market_id vote_yes)

  -- `total_reward_pool * CreatorRewardPercentage / 100`
  unfoldable pub creator_reward_of : ℕ → ℕ
  creator_reward_of total_reward_pool =
      unwrap_or 0
        (checked_div (saturating_mul u128_max total_reward_pool c.creator_reward_percentage) 100)

  -- `market.yes_votes > market.no_votes`
  unfoldable pub yes_wins_in : Market → Bool
  yes_wins_in market = ltb market.no_votes market.yes_votes

  unfoldable pub winner_count_of : Market → ℕ
  unfolding yes_wins_in
  winner_count_of market = if yes_wins_in market then market.yes_votes else market.no_votes

  unfoldable pub reward_per_winner_of : Market → ℕ
  unfolding creator_reward_of winner_count_of
  reward_per_winner_of market = unwrap_or 0 (
      checked_div (saturating_sub market.total_staked (creator_reward_of market.total_staked))
        (winner_count_of market))

  -- `let _ = T::Currency::transfer(&Self::account_id(), ..)`: the result is dropped.
  unfoldable pub pay : AccountId → ℕ → L → L
  unfolding account_id
  pay to amount l = (c.currency.transfer account_id to amount allow_death l).1

  -- The loop over `Votes::iter_prefix(market_id)`.
  unfoldable pub pay_winners : Bool → ℕ → List (AccountId × Bool) → L → L
  pay_winners yes_wins reward [] l = l
  pay_winners yes_wins reward ((voter, vote) ∷ rest) l =
      pay_winners yes_wins reward rest (if bool_eq vote yes_wins then pay voter reward l else l)

  unfoldable pub iter_votes : ℕ → Storage L → List (AccountId × Bool)
  iter_votes market_id s = c.storage_order (StorageDoubleMap.prefix market_id s.votes)

  -- The two transfers of `release_rewards`: to the winners, if there are any, and to the creator.
  unfoldable pub distribute : Market → List (AccountId × Bool) → L → L
  distribute market votes l =
      let paid : L =
        if ltb 0 (winner_count_of market)
        then pay_winners (yes_wins_in market) (reward_per_winner_of market) votes l
        else l in
      pay market.creator (creator_reward_of market.total_staked) paid

  unfoldable pub release_rewards_body : Origin → ℕ → Call L (Unit {0})
  release_rewards_body origin market_id = do
    ensure_signed origin
    found ← gets (λ s. StorageMap.get market_id s.markets)
    market ← ok_or found market_does_not_exist
    ensure market.is_active market_not_active
    now ← gets (λ s. s.block_number)
    ensure (ltb market.end_block now) market_still_active
    modify (λ s. record s { ledger = distribute market (iter_votes market_id s) s.ledger })
    modify (λ s. record s {
      markets = StorageMap.insert market_id (record market { is_active = false }) s.markets;
    })
    deposit_event
        (rewards_distributed market_id market.creator (creator_reward_of market.total_staked))

  unfoldable pub release_rewards : Origin → ℕ → Call L (Unit {0})
  release_rewards origin market_id = transactional (release_rewards_body origin market_id)

  unfoldable pub create_meme : Origin → ℕ → List ℕ → Call L (Unit {0})
  create_meme origin market_id cid = do
    creator ← ensure_signed origin
    found ← gets (λ s. StorageMap.get market_id s.markets)
    market ← ok_or found market_does_not_exist
    ensure market.is_active market_not_active
    bounded_cid ← ok_or (try_bound max_cid_len cid) invalid_cid
    let meme : Meme = record { creator = creator; cid = bounded_cid; meme_template = market_id }
    memes ← ok_or (try_bound max_memes (market.memes ++ meme ∷ [])) meme_list_full
    modify (λ s. record s {
      markets = StorageMap.insert market_id (record market { memes = memes }) s.markets;
    })
    deposit_event (meme_created market_id creator bounded_cid market_id)

unfoldable pub get_market_memes : {L : Type 0} → ℕ → Storage L → Option (List Meme)
get_market_memes market_id s = Option.map (λ m. m.memes) (StorageMap.get market_id s.markets)

-- The calls of `#[pallet::call]`, with their arguments.
pub data PalletCall : Type 0 where
  create_market_call : List ℕ → PalletCall
  vote_call : ℕ → Bool → PalletCall
  release_rewards_call : ℕ → PalletCall
  create_meme_call : ℕ → List ℕ → PalletCall

-- A call by its body, with nothing rolled back.
unfoldable pub call_body : {L : Type 0} → Config L → Origin → PalletCall → Call L (Unit {0})
call_body c origin (create_market_call metadata) = create_market c origin metadata
call_body c origin (vote_call market_id vote_yes) = vote_body c origin market_id vote_yes
call_body c origin (release_rewards_call market_id) = release_rewards_body c origin market_id
call_body c origin (create_meme_call market_id cid) = create_meme c origin market_id cid

unfoldable pub run_call : {L : Type 0} → Config L → Origin → PalletCall → Call L (Unit {0})
run_call c origin (create_market_call metadata) = create_market c origin metadata
run_call c origin (vote_call market_id vote_yes) = vote c origin market_id vote_yes
run_call c origin (release_rewards_call market_id) = release_rewards c origin market_id
run_call c origin (create_meme_call market_id cid) = create_meme c origin market_id cid

-- FRAME runs every call in a storage layer, which it drops if the call fails.
unfoldable pub dispatch : {L : Type 0} → Config L → Origin → PalletCall → Call L (Unit {0})
dispatch c origin call = transactional (run_call c origin call)
