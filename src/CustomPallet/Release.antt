-- ===== src/CustomPallet/Release.antt =====
-- `release_rewards` of the market pallet (pallets/custom-pallet/src/lib.rs): when it succeeds,
-- and what it may take from the account of the pallet.
use subtrate.Base.{
  ℕ, ◌+◌, ◌*◌, ◌≤◌, ◌≡◌, ◌≢◌, refl, ap, Bool, true, false, some, List, [], ◌∷◌, arith, bool_eq,
  ◌==◌, ◌&&◌, if◌then◌else◌, count_if-perm, u32_max,
}
use mathlib.Core.List.{Perm}
use mathlib.Core.Path.{subst}
use subtrate.Frame.Dispatch.{AccountId, signed, ok}
use subtrate.Frame.StorageMap
use subtrate.Frame.StorageDoubleMap
use subtrate.Frame.Currency.{IsCurrency}
use subtrate.CustomPallet.Types.{Market, Config, Storage}
use subtrate.CustomPallet.Calls.{
  account_id, vote, release_rewards, iter_votes, creator_reward_of, yes_wins_in, winner_count_of,
  reward_per_winner_of,
}
use subtrate.CustomPallet.Vote.{MayVote-of_vote}
use subtrate.CustomPallet.Outcome.{
  MayRelease, after_release, MayRelease-of_release, release-of_MayRelease,
}
use subtrate.CustomPallet.Invariant.{yes_count, no_count, Agrees, IsValid, MarketOk}
use subtrate.CustomPallet.Payout.{won, won_by, free, Spends, distribute-Spends, distribute-receives}

won-by_side :
    (side : Bool) (votes : List (AccountId × Bool))
    → won side votes ≡ (if side then yes_count votes else no_count votes)
won-by_side true [] = refl
won-by_side false [] = refl
won-by_side true ((a, v) ∷ votes) = ground (arith, won-by_side true votes)
won-by_side false ((a, v) ∷ votes) = ground (arith, won-by_side false votes)

module _ {L : Type 0} (c : Config L) where
  -- An iteration lists every entry once, in some order.
  abbrev pub IsOrder : Type 0
  IsOrder = (xs : List (AccountId × Bool)) → Perm (c.storage_order xs) xs

  -- The counters of a market count the votes that the loop pays.
  pub won-le-winner_count :
      (k : Market) (m : ℕ) (s : Storage L)
      → IsOrder
      → Agrees c.vote_cost k (StorageDoubleMap.prefix m s.votes)
      → yes_count (StorageDoubleMap.prefix m s.votes) ≤ u32_max
      → no_count (StorageDoubleMap.prefix m s.votes) ≤ u32_max
      → won (yes_wins_in c k) (iter_votes c m s) ≤ winner_count_of c k
  unfolding iter_votes winner_count_of
  won-le-winner_count k m s order a hy hn = ground (
    arith,
    count_if-perm (λ (e : AccountId × Bool). bool_eq e.1 (yes_wins_in c k))
        (order (StorageDoubleMap.prefix m s.votes)),
    won-by_side (yes_wins_in c k) (StorageDoubleMap.prefix m s.votes),
  )

  pub release-after :
      (who m : ℕ) (s : Storage L) (k : Market)
      → StorageMap.get m s.markets ≡ some k
      → (release_rewards c (signed who) m s).0 ≡ ok tt
      → MayRelease c m s k × ((release_rewards c (signed who) m s).1 ≡ after_release c m s k)
  release-after who m s k found h =
      let (k', may) = MayRelease-of_release c who m s h in
      let may' : MayRelease c m s k = ground arith in
      (may', ap (λ r. r.1) (release-of_MayRelease c who m s k may'))

  -- In no state do both a vote in a market and the release of its rewards succeed: votes end with
  -- the end block, and releases begin after it.
  pub vote_release_exclusive :
      (a b m : ℕ) (y : Bool) (s : Storage L)
      → (vote c (signed a) m y s).0 ≡ ok tt
      → (release_rewards c (signed b) m s).0 ≢ ok tt
  vote_release_exclusive a b m y s h g =
      let (k, may) = MayVote-of_vote c a m y s h in
      let (k', may') = MayRelease-of_release c b m s g in ground arith

module _ {L : Type 0} (c : Config L) (laws : IsCurrency c.currency) where
  pub after_release-Spends :
      (m : ℕ) (s : Storage L) (k : Market)
      → c.creator_reward_percentage ≤ 100
      → IsOrder c
      → IsValid c s
      → yes_count (StorageDoubleMap.prefix m s.votes) ≤ u32_max
      → no_count (StorageDoubleMap.prefix m s.votes) ≤ u32_max
      → StorageMap.get m s.markets ≡ some k
      → Spends c k.total_staked s.ledger (after_release c m s k).ledger
  after_release-Spends m s k pct order v hy hn found =
      let votes = StorageDoubleMap.prefix m s.votes in
      let agrees : Agrees c.vote_cost k votes =
        subst (λ o. MarketOk c.vote_cost o votes) found (v.markets_ok m) in
      distribute-Spends c laws k (iter_votes c m s) s.ledger pct
        (won-le-winner_count c k m s order agrees hy hn)

  -- A successful release takes at most the stake of the market from the account of the pallet
  -- (or finds less there than the stake and the minimum balance), in whatever order the votes are
  -- listed and whichever transfers fail: if the percentage is at most 100, the storage is valid,
  -- and the stored votes of either side are a `u32`.
  pub release-Spends :
      (who m : ℕ) (s : Storage L) (k : Market)
      → c.creator_reward_percentage ≤ 100
      → IsOrder c
      → IsValid c s
      → yes_count (StorageDoubleMap.prefix m s.votes) ≤ u32_max
      → no_count (StorageDoubleMap.prefix m s.votes) ≤ u32_max
      → StorageMap.get m s.markets ≡ some k
      → (release_rewards c (signed who) m s).0 ≡ ok tt
      → Spends c k.total_staked s.ledger (release_rewards c (signed who) m s).1.ledger
  release-Spends who m s k pct order v hy hn found h =
      rw (release-after c who m s k found h).1 (after_release-Spends m s k pct order v hy hn found)

  -- A successful release takes nothing from any account but the pallet's, and gives an account at
  -- most the share of each vote that it cast for the winning side, and the creator's reward if it
  -- created the market: an account that voted for the other side alone receives no share.
  pub release_receives :
      (who m a : ℕ) (s : Storage L) (k : Market)
      → a ≢ account_id c
      → IsOrder c
      → StorageMap.get m s.markets ≡ some k
      → (release_rewards c (signed who) m s).0 ≡ ok tt
      → let l' = (release_rewards c (signed who) m s).1.ledger in
        (free c a s.ledger ≤ free c a l')
        × (free c a l'
            ≤ free c a s.ledger
              + won_by a (yes_wins_in c k) (StorageDoubleMap.prefix m s.votes)
                * reward_per_winner_of c k
              + (if k.creator == a then creator_reward_of c k.total_staked else 0))
  unfolding iter_votes
  release_receives who m a s k ne order found h = rw (release-after c who m s k found h).1 (
      rw
        (← count_if-perm (λ (e : AccountId × Bool). e.0 == a && bool_eq e.1 (yes_wins_in c k))
          (order (StorageDoubleMap.prefix m s.votes)))
        (distribute-receives c laws k (iter_votes c m s) a s.ledger ne))
