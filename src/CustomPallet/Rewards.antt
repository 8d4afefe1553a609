-- ===== src/CustomPallet/Rewards.antt =====
-- The arithmetic of `release_rewards` of the market pallet (pallets/custom-pallet/src/lib.rs).
use subtrate.Base.{ℕ, ◌+◌, ◌-◌, ◌*◌, ◌/◌, ◌≤◌, ◌<◌, ◌≡◌, ◌⊎◌, arith, max, min, u128_max}
use native.Mathlib.Nat.{div-add-mod, mod-lt}
use subtrate.CustomPallet.Types.{Market, Config}
use subtrate.CustomPallet.Calls.{creator_reward_of, winner_count_of, reward_per_winner_of}

module _ {L : Type 0} (c : Config L) where
  -- The larger of the two counts wins, a tie counting for "no".
  pub winner_count-eq_max : (k : Market) → winner_count_of c k ≡ max k.yes_votes k.no_votes
  unfolding winner_count_of
  winner_count-eq_max k = ground arith

  share-le : (t p b : ℕ) → p ≤ 100 → min (t * p) b / 100 ≤ t
  share-le t p b h = grind arith

  pub creator_reward-le :
      (staked : ℕ) → c.creator_reward_percentage ≤ 100 → creator_reward_of c staked ≤ staked
  unfolding creator_reward_of
  creator_reward-le staked h = share-le staked c.creator_reward_percentage u128_max h

  split : (n d : ℕ) → (n * (d / n) ≤ d) × (0 < n → d < n * (d / n) + n)
  split n d = (omega (arith, div-add-mod d n), λ h. omega (arith, div-add-mod d n, mod-lt d h))

  -- With a percentage of at most 100 the creator's reward and the winners' rewards together are
  -- at most the stake, and with at least one winner what is left over is less than one unit for
  -- each winner.
  pub reward_split :
      (k : Market)
      → c.creator_reward_percentage ≤ 100
      → let paid : ℕ =
          winner_count_of c k * reward_per_winner_of c k + creator_reward_of c k.total_staked in
        (paid ≤ k.total_staked)
        × ((winner_count_of c k ≡ 0) ⊎ (k.total_staked < paid + winner_count_of c k))
  unfolding reward_per_winner_of
  reward_split k h =
      let r : ℕ = creator_reward_of c k.total_staked in
      let w : ℕ = winner_count_of c k in
      ground (arith, creator_reward-le k.total_staked h, split w (k.total_staked - r))
