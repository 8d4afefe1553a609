-- ===== src/CustomPallet/Solvency.antt =====
-- The account of the market pallet (pallets/custom-pallet/src/lib.rs) holds the stakes of all the
-- markets whose rewards are not released.
use subtrate.Base.{
  ℕ, ◌+◌, ◌≤◌, ◌≡◌, ◌≢◌, ◌⊎◌, refl, Bool, true, false, none, some, [], ◌∷◌, arith, if◌then◌else◌,
  u32_max, u128_max, min, inl,
}
use subtrate.Frame.StorageMap
use subtrate.Frame.StorageMap.{StorageMap}
use subtrate.Frame.StorageDoubleMap
use subtrate.Frame.Currency.{IsCurrency, keep_alive}
use subtrate.CustomPallet.Types.{Market, Config, Storage}
use subtrate.CustomPallet.Calls.{account_id, count_vote}
use subtrate.CustomPallet.Vote.{MayVote, after_vote}
use subtrate.CustomPallet.Outcome.{MayRelease, after_release}
use subtrate.CustomPallet.Invariant.{yes_count, no_count, IsValid}
use subtrate.CustomPallet.Payout.{free}
use subtrate.CustomPallet.Release.{IsOrder, after_release-Spends}

-- What a market still owes to its voters and its creator.
abbrev pub owed : Market → ℕ
owed k = if k.is_active then k.total_staked else 0

abbrev pub stakes : StorageMap Market → ℕ
stakes [] = 0
stakes ((i, k) ∷ ms) = owed k + stakes ms

-- Every open stake is nothing, or at least `least`.
abbrev pub Whole : ℕ → StorageMap Market → Type 0
Whole least [] = Unit
Whole least ((i, k) ∷ ms) = ((owed k ≡ 0) ⊎ (least ≤ owed k)) × Whole least ms

pub stakes-insert :
    (m : ℕ) (k k' : Market) (ms : StorageMap Market)
    → StorageMap.get m ms ≡ some k
    → stakes (StorageMap.insert m k' ms) + owed k ≡ stakes ms + owed k'
unfolding StorageMap.get StorageMap.insert
stakes-insert m k k' [] h = cc
stakes-insert m k k' ((i, j) ∷ ms) h = ground (arith, stakes-insert m k k' ms)

pub stakes-insert_new :
    (m : ℕ) (k' : Market) (ms : StorageMap Market)
    → StorageMap.get m ms ≡ none
    → stakes (StorageMap.insert m k' ms) ≡ stakes ms + owed k'
unfolding StorageMap.get StorageMap.insert
stakes-insert_new m k' [] h = omega arith
stakes-insert_new m k' ((i, j) ∷ ms) h = ground (arith, stakes-insert_new m k' ms)

pub Whole-insert :
    (least m : ℕ) (k' : Market) (ms : StorageMap Market)
    → (owed k' ≡ 0) ⊎ (least ≤ owed k')
    → Whole least ms
    → Whole least (StorageMap.insert m k' ms)
unfolding StorageMap.insert
Whole-insert least m k' [] h w = (h, tt)
Whole-insert least m k' ((i, j) ∷ ms) h w = ground (arith, Whole-insert least m k' ms h w.1)

pub Whole-get :
    (least m : ℕ) (k : Market) (ms : StorageMap Market)
    → StorageMap.get m ms ≡ some k
    → Whole least ms
    → (owed k ≡ 0) ⊎ (least ≤ owed k)
unfolding StorageMap.get
Whole-get least m k [] h w = cc
Whole-get least m k ((i, j) ∷ ms) h w = ground (arith, Whole-get least m k ms)

-- What is open is nothing at all, or at least `least`.
Whole-stakes :
    (least : ℕ) (ms : StorageMap Market) → Whole least ms → (stakes ms ≡ 0) ⊎ (least ≤ stakes ms)
Whole-stakes least [] w = inl refl
Whole-stakes least ((i, k) ∷ ms) w = omega (arith, Whole-stakes least ms w.1)

-- The pallet's account holds the open stakes, of which none is so small that an account left with
-- it alone would be removed.
pub record IsSolvent {L : Type 0} (c : Config L) (s : Storage L) : Type 0 where
  pub covered : stakes s.markets ≤ free c (account_id c) s.ledger
  pub whole : Whole c.currency.minimum_balance s.markets

-- What the configuration has to satisfy: rewards are a share of the stake, and votes cost nothing
-- or enough to keep an account alive.
pub record IsSound {L : Type 0} (c : Config L) : Type 0 where
  pub share : c.creator_reward_percentage ≤ 100
  pub viable : (c.vote_cost ≡ 0) ⊎ (c.currency.minimum_balance ≤ c.vote_cost)
  pub representable : c.currency.minimum_balance ≤ u128_max
  pub order : IsOrder c

count_vote-owed :
    {L : Type 0} (c : Config L) (y : Bool) (k : Market)
    → k.is_active ≡ true
    → owed (count_vote c y k) ≡ min (k.total_staked + c.vote_cost) u128_max
unfolding count_vote
count_vote-owed c true k h = ground arith
count_vote-owed c false k h = ground arith

module _ {L : Type 0} (c : Config L) (laws : IsCurrency c.currency) (sound : IsSound c) where
  pub after_vote-IsSolvent :
      (voter m : ℕ) (y : Bool) (s : Storage L) (k : Market)
      → voter ≢ account_id c
      → MayVote c voter m s k
      → IsSolvent c s
      → IsSolvent c (after_vote c voter m y s k)
  after_vote-IsSolvent voter m y s k other may v =
      let grown = stakes-insert m k (count_vote c y k) s.markets may.0 in
      let stake = count_vote-owed c y k may.1 in
      let open_stake : owed k ≡ k.total_staked = ground arith in
      let paid =
        laws.transfer_credits voter (account_id c) c.vote_cost keep_alive s.ledger other may.4 in
      record {
        covered = omega (arith, v.covered);
        whole =
            Whole-insert c.currency.minimum_balance m (count_vote c y k) s.markets
              (omega (
                arith,
                sound.viable,
                sound.representable,
                Whole-get c.currency.minimum_balance m k s.markets may.0 v.whole,
              ))
              v.whole;
      }

  -- A stored-votes bound: the votes of either side of a market are a `u32`.
  abbrev pub VotesFit : Storage L → ℕ → Type 0
  VotesFit s m =
      (yes_count (StorageDoubleMap.prefix m s.votes) ≤ u32_max)
      × (no_count (StorageDoubleMap.prefix m s.votes) ≤ u32_max)

  pub after_release-IsSolvent :
      (m : ℕ) (s : Storage L) (k : Market)
      → MayRelease c m s k
      → IsValid c s
      → VotesFit s m
      → IsSolvent c s
      → IsSolvent c (after_release c m s k)
  after_release-IsSolvent m s k may v fit w =
      let settled : Market = record k { is_active = false } in
      let rest = stakes-insert m k settled s.markets may.0 in
      let open_stake : owed k ≡ k.total_staked = ground arith in
      let kept = Whole-insert c.currency.minimum_balance m settled s.markets (inl refl) w.whole in
      let small =
        Whole-stakes c.currency.minimum_balance (StorageMap.insert m settled s.markets) kept in
      let spent = after_release-Spends c laws m s k sound.share sound.order v fit.0 fit.1 may.0 in
      record { covered = omega (arith, w.covered); whole = kept }
