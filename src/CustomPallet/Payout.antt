-- ===== src/CustomPallet/Payout.antt =====
-- What `release_rewards` of the market pallet (pallets/custom-pallet/src/lib.rs) moves: how much
-- leaves the account of the pallet, and what each account receives.
use subtrate.Base.{
  ℕ, ◌+◌, ◌*◌, ◌≤◌, ◌<◌, sym, ◌∙◌, ◌≢◌, ◌⊎◌, inl, inr, Bool, List, [], ◌∷◌, arith, ltb, ◌==◌, ◌&&◌,
  bool_eq, if◌then◌else◌, count_if, Bool-cases,
}
use native.Mathlib.Decide.{ℕ_discrete}
use native.Mathlib.Nat.{mul-le-mul_right}
use subtrate.Frame.Dispatch.{AccountId}
use subtrate.Frame.Currency.{IsCurrency, allow_death, Result-cases}
use subtrate.CustomPallet.Types.{Market, Config}
use subtrate.CustomPallet.Calls.{
  account_id, pay, pay_winners, distribute, creator_reward_of, yes_wins_in, winner_count_of,
  reward_per_winner_of,
}
use subtrate.CustomPallet.Rewards.{reward_split}

-- The entries that voted for the side.
abbrev pub won : Bool → List (AccountId × Bool) → ℕ
won side = count_if (λ e. bool_eq e.1 side)

-- The entries of one account that voted for the side.
abbrev pub won_by : AccountId → Bool → List (AccountId × Bool) → ℕ
won_by a side = count_if (λ e. e.0 == a && bool_eq e.1 side)

module _ {L : Type 0} (c : Config L) where
  abbrev pub free : AccountId → L → ℕ
  free = c.currency.free_balance

  -- The account of the pallet loses at most `amount`, or it held less than that and the minimum
  -- balance of an account to begin with.
  abbrev pub Spends : ℕ → L → L → Type 0
  Spends amount l l' =
      (free (account_id c) l ≤ free (account_id c) l' + amount)
      ⊎ (free (account_id c) l < amount + c.currency.minimum_balance)

module _ {L : Type 0} (c : Config L) (laws : IsCurrency c.currency) where
  pub pay-Spends : (to v : ℕ) (l : L) → Spends c v l (pay c to v l)
  unfolding pay
  pay-Spends to v l =
      elim (Result-cases (c.currency.transfer (account_id c) to v allow_death l).0) [
        | inr (e, h) ↦ rw (laws.transfer_fails (account_id c) to v allow_death l e h) (omega arith)
        | inl h ↦ elim (ℕ_discrete (account_id c) to) [
          | yes self ↦
              rw (← self) (omega (arith, laws.transfer_to_self (account_id c) v allow_death l))
          | no other ↦ omega (arith, laws.transfer_debits (account_id c) to v l other h)
        ]
      ]

  -- Anyone but the pallet gets the amount if it goes to them and the transfer succeeds.
  pub pay-receives :
      (to v a : ℕ) (l : L)
      → a ≢ account_id c
      → (free c a l ≤ free c a (pay c to v l))
        × (free c a (pay c to v l) ≤ free c a l + (if to == a then v else 0))
  unfolding pay
  pay-receives to v a l ne =
      elim (Result-cases (c.currency.transfer (account_id c) to v allow_death l).0) [
        | inr (e, h) ↦ rw (laws.transfer_fails (account_id c) to v allow_death l e h) (omega arith)
        | inl h ↦ elim (ℕ_discrete to a) [
          | yes same ↦ ground (
            arith,
            laws.transfer_credits (account_id c) to v allow_death l (λ e. ne (sym (e ∙ same))) h,
          )
          | no other ↦ ground (
            arith,
            laws.transfer_spares (account_id c) to v a allow_death l ne (λ e. other (sym e)),
          )
        ]
      ]

  Spends-trans :
      (p q : ℕ) (l l' l'' : L) → Spends c p l l' → Spends c q l' l'' → Spends c (p + q) l l''
  Spends-trans p q l l' l'' h h' = omega arith

  pub pay_winners-Spends :
      (side : Bool) (r : ℕ) (votes : List (AccountId × Bool)) (l : L)
      → Spends c (won side votes * r) l (pay_winners c side r votes l)
  unfolding pay_winners
  pay_winners-Spends side r [] l = omega arith
  pay_winners-Spends side r ((a, v) ∷ votes) l = elim (Bool-cases (bool_eq v side)) [
    | inl same ↦
        rw same (omega (arith, pay-Spends a r l, pay_winners-Spends side r votes (pay c a r l)))
    | inr other ↦ rw other (omega (arith, pay_winners-Spends side r votes l))
  ]

  pub pay_winners-receives :
      (side : Bool) (r a : ℕ) (votes : List (AccountId × Bool)) (l : L)
      → a ≢ account_id c
      → (free c a l ≤ free c a (pay_winners c side r votes l))
        × (free c a (pay_winners c side r votes l) ≤ free c a l + won_by a side votes * r)
  unfolding pay_winners
  pay_winners-receives side r a [] l ne = omega arith
  pay_winners-receives side r a ((b, v) ∷ votes) l ne = elim (Bool-cases (bool_eq v side)) [
    | inl same ↦
        let rest = pay_winners-receives side r a votes (pay c b r l) ne in
        let first = pay-receives b r a l ne in rw same (ground (arith, rest, first))
    | inr other ↦
        let rest = pay_winners-receives side r a votes l ne in rw other (ground (arith, rest))
  ]

  -- A release for which no more votes are paid than were counted takes at most the stake of the
  -- market from the account of the pallet.
  pub distribute-Spends :
      (k : Market) (votes : List (AccountId × Bool)) (l : L)
      → c.creator_reward_percentage ≤ 100
      → won (yes_wins_in c k) votes ≤ winner_count_of c k
      → Spends c k.total_staked l (distribute c k votes l)
  unfolding distribute
  distribute-Spends k votes l h counted =
      let side : Bool = yes_wins_in c k in
      let r : ℕ = reward_per_winner_of c k in
      let pool : ℕ = creator_reward_of c k.total_staked in
      let paid : L = pay_winners c side r votes l in
      let within = mul-le-mul_right r counted in
      elim (Bool-cases (ltb 0 (winner_count_of c k))) [
        | inl some_won ↦ rw some_won (
            omega (
              arith,
              within,
              reward_split c k h,
              pay_winners-Spends side r votes l,
              pay-Spends k.creator pool paid,
            ))
        | inr none_won ↦
            rw none_won (omega (arith, reward_split c k h, pay-Spends k.creator pool l))
      ]

  -- What an account other than the pallet's can receive: the share of each of its winning votes,
  -- and the creator's reward if it created the market.
  pub distribute-receives :
      (k : Market) (votes : List (AccountId × Bool)) (a : ℕ) (l : L)
      → a ≢ account_id c
      → (free c a l ≤ free c a (distribute c k votes l))
        × (free c a (distribute c k votes l)
            ≤ free c a l
              + won_by a (yes_wins_in c k) votes * reward_per_winner_of c k
              + (if k.creator == a then creator_reward_of c k.total_staked else 0))
  unfolding distribute
  distribute-receives k votes a l ne =
      let side : Bool = yes_wins_in c k in
      let r : ℕ = reward_per_winner_of c k in
      let pool : ℕ = creator_reward_of c k.total_staked in
      elim (Bool-cases (ltb 0 (winner_count_of c k))) [
        | inl some_won ↦ rw some_won (
            omega (
              arith,
              pay_winners-receives side r a votes l ne,
              pay-receives k.creator pool a (pay_winners c side r votes l) ne,
            ))
        | inr none_won ↦ rw none_won (omega (arith, pay-receives k.creator pool a l ne))
      ]
