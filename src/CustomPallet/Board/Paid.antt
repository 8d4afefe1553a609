-- ===== src/CustomPallet/Board/Paid.antt =====
-- What a release of the market pallet (pallets/custom-pallet/src/lib.rs) pays, from the ballot.
use subtrate.Base.{
  ℕ, ◌+◌, ◌-◌, ◌*◌, ◌/◌, ◌≤◌, ◌≡◌, ◌≢◌, refl, ap, ◌∙◌, Bool, true, false, some, List, [], ◌∷◌,
  arith, if◌then◌else◌, min, count_if, unwrap_or, checked_div, saturating_sub, saturating_mul,
  u32_max, u128_max,
}
use mathlib.Core.Quot
use mathlib.Core.Path.{subst}
use subtrate.Frame.Dispatch.{AccountId, signed, ok}
use subtrate.Frame.StorageMap
use subtrate.Frame.StorageDoubleMap
use subtrate.Frame.Currency.{IsCurrency}
use subtrate.CustomPallet.Types.{Market, Config, Storage}
use subtrate.CustomPallet.Calls.{
  account_id, creator_reward_of, yes_wins_in, winner_count_of, reward_per_winner_of,
  release_rewards,
}
use subtrate.CustomPallet.Invariant.{yes_count, no_count, Agrees, IsValid, MarketOk}
use subtrate.CustomPallet.Payout.{free}
use subtrate.CustomPallet.Release.{IsOrder}
use subtrate.CustomPallet.FullPay.{CanPay, release_pays}
use subtrate.CustomPallet.Board.{tally, for, decides, stake, share, due_to}
use subtrate.CustomPallet.Board.Refines.{ballot_of}

count_if-for :
    (votes : List (AccountId × Bool))
    → (count_if (for true) votes ≡ yes_count votes) × (count_if (for false) votes ≡ no_count votes)
count_if-for [] = (refl, refl)
count_if-for ((a, true) ∷ votes) =
    let h = count_if-for votes in (omega (arith, h.0), omega (arith, h.1))
count_if-for ((a, false) ∷ votes) =
    let h = count_if-for votes in (omega (arith, h.0), omega (arith, h.1))

min_of_le : (n : ℕ) → n ≤ u128_max → min n u128_max ≡ n
min_of_le n h = omega arith

-- The share without the saturation.
split_unsaturated :
    (t p w : ℕ)
    → t * p ≤ u128_max
    → unwrap_or 0 (
        checked_div
          (saturating_sub t (unwrap_or 0 (checked_div (saturating_mul u128_max t p) 100)))
          w)
      ≡ (t - t * p / 100) / w
split_unsaturated t p w h = ground arith

module _ {L : Type 0} (c : Config L) where
  module _ (k : Market) (votes : List (AccountId × Bool)) (agrees : Agrees c.vote_cost k votes)
      (hy : yes_count votes ≤ u32_max) (hn : no_count votes ≤ u32_max) where
    yes_tallied : k.yes_votes ≡ tally (for true) (Quot.mk votes)
    unfolding tally
    yes_tallied = omega (arith, agrees.yes_counted, (count_if-for votes).0)

    no_tallied : k.no_votes ≡ tally (for false) (Quot.mk votes)
    unfolding tally
    no_tallied = omega (arith, agrees.no_counted, (count_if-for votes).1)

    wins-decides : yes_wins_in c k ≡ decides (Quot.mk votes)
    unfolding yes_wins_in
    wins-decides = rw (yes_tallied, no_tallied) refl

    side_tallied :
        (b : Bool) → (if b then k.yes_votes else k.no_votes) ≡ tally (for b) (Quot.mk votes)
    side_tallied true = yes_tallied
    side_tallied false = no_tallied

    winners_tallied : winner_count_of c k ≡ tally (for (decides (Quot.mk votes))) (Quot.mk votes)
    unfolding winner_count_of
    winners_tallied =
        ap (λ b. if b then k.yes_votes else k.no_votes) wins-decides
        ∙ side_tallied (decides (Quot.mk votes))

    staked_tallied :
        stake c.vote_cost (Quot.mk votes) ≤ u128_max
        → k.total_staked ≡ stake c.vote_cost (Quot.mk votes)
    unfolding tally
    staked_tallied fits =
        let (ty, tn) = count_if-for votes in
        rw (ty, tn) (agrees.staked ∙ min_of_le _ (rw (ty, tn) at fits))

    reward-share :
        stake c.vote_cost (Quot.mk votes) * 100 ≤ u128_max
        → c.creator_reward_percentage ≤ 100
        → reward_per_winner_of c k ≡ share c.vote_cost c.creator_reward_percentage (Quot.mk votes)
    unfolding reward_per_winner_of creator_reward_of
    reward-share fits pct =
        let all = staked_tallied (omega arith) in
        rw (winners_tallied, all)
          (split_unsaturated (stake c.vote_cost (Quot.mk votes)) c.creator_reward_percentage
            (tally (for (decides (Quot.mk votes))) (Quot.mk votes)) (grind arith))

module _ {L : Type 0} (c : Config L) (laws : IsCurrency c.currency) (can : CanPay c) where
  -- What a successful release pays is read off the ballot alone: an account other than the pallet's
  -- and the creator's gains, for each of its votes for the side with more votes, a tie being "no",
  -- an equal share of the stake after the percentage of the creator, where the stake is the number
  -- of votes times the cost of one. This is so if the storage is valid, either side has at most
  -- `u32::MAX` votes, a hundred times the stake is a `u128`, the percentage is at most 100, the
  -- pallet's account holds the stake, and a share keeps an account alive.
  pub release_pays_ballot :
      (who m a : ℕ) (s : Storage L) (k : Market)
      → a ≢ account_id c
      → k.creator ≢ a
      → c.creator_reward_percentage ≤ 100
      → IsOrder c
      → IsValid c s
      → tally (for true) (ballot_of s m) ≤ u32_max
      → tally (for false) (ballot_of s m) ≤ u32_max
      → stake c.vote_cost (ballot_of s m) * 100 ≤ u128_max
      → StorageMap.get m s.markets ≡ some k
      → stake c.vote_cost (ballot_of s m) ≤ free c (account_id c) s.ledger
      → c.currency.minimum_balance ≤ share c.vote_cost c.creator_reward_percentage (ballot_of s m)
      → (release_rewards c (signed who) m s).0 ≡ ok tt
      → free c a (release_rewards c (signed who) m s).1.ledger
        ≡ free c a s.ledger + due_to c.vote_cost c.creator_reward_percentage a (ballot_of s m)
  unfolding tally
  release_pays_ballot who m a s k ne creator pct order v ty tn fits found funded alive h =
      let votes = StorageDoubleMap.prefix m s.votes in
      let agrees : Agrees c.vote_cost k votes =
        subst (λ o. MarketOk c.vote_cost o votes) found (v.markets_ok m) in
      let (ey, en) = count_if-for votes in
      let hy : yes_count votes ≤ u32_max = omega (arith, ey) in
      let hn : no_count votes ≤ u32_max = omega (arith, en) in
      let each = reward-share c k votes agrees hy hn fits pct in
      let wins = wins-decides c k votes agrees hy hn in
      let all = staked_tallied c k votes agrees hy hn (omega arith) in
      release_pays c laws can who m a s k ne creator pct order v hy hn found (rw all funded)
        (rw each alive) h
      ∙ rw (wins, each) refl
