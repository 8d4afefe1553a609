-- ===== src/CustomPallet/FullPay.antt =====
-- A funded release of the market pallet (pallets/custom-pallet/src/lib.rs) pays every winner.
use subtrate.Base.{
  ℕ, zero, suc, ◌+◌, ◌*◌, ◌≤◌, ◌<◌, ◌≡◌, ◌≢◌, ◌∙◌, sym, Bool, some, List, [], ◌∷◌, arith, bool_eq,
  ◌==◌, ◌&&◌, if◌then◌else◌, count_if-perm, ltb, Bool-cases, inl, inr, u32_max,
}
use mathlib.Core.Path.{subst}
use native.Mathlib.Decide.{ℕ_discrete}
use native.Mathlib.Nat.{mul-le-mul_right}
use subtrate.Frame.Dispatch.{AccountId, signed, ok}
use subtrate.Frame.StorageMap
use subtrate.Frame.StorageDoubleMap
use subtrate.Frame.Currency.{IsCurrency, allow_death}
use subtrate.CustomPallet.Types.{Market, Config, Storage}
use subtrate.CustomPallet.Calls.{
  account_id, pay, pay_winners, distribute, creator_reward_of, yes_wins_in, winner_count_of,
  reward_per_winner_of, iter_votes, release_rewards,
}
use subtrate.CustomPallet.Invariant.{yes_count, no_count, Agrees, IsValid, MarketOk}
use subtrate.CustomPallet.Rewards.{reward_split}
use subtrate.CustomPallet.Payout.{won, won_by, free, pay-receives}
use subtrate.CustomPallet.Release.{IsOrder, won-le-winner_count, release-after}

-- What the currency promises of an account without locks: it can send what it holds, if the amount
-- is enough to keep the receiver alive.
abbrev pub CanPay : {L : Type 0} → Config L → Type 0
CanPay {L} c =
    (to v : ℕ) (l : L)
    → v ≤ free c (account_id c) l
    → c.currency.minimum_balance ≤ v
    → (c.currency.transfer (account_id c) to v allow_death l).0 ≡ ok tt

less_than_one : (n r b f : ℕ) → (1 + n) * r ≤ f → f < r + b → b ≤ r → n * r ≡ 0
less_than_one zero r b f h lt le = omega arith
less_than_one (suc n) r b f h lt le = absurd (omega arith)

won_by-le-won :
    (a : ℕ) (side : Bool) (votes : List (AccountId × Bool)) → won_by a side votes ≤ won side votes
won_by-le-won a side [] = omega arith
won_by-le-won a side ((b, v) ∷ votes) = ground (arith, won_by-le-won a side votes)

module _ {L : Type 0} (c : Config L) (laws : IsCurrency c.currency) (can : CanPay c) where
  -- A payment that is covered arrives, and what the rest needs is left, if the rest is a multiple.
  pay_covered :
      (b a r n : ℕ) (l : L)
      → a ≢ account_id c
      → (1 + n) * r ≤ free c (account_id c) l
      → c.currency.minimum_balance ≤ r
      → (free c a (pay c b r l) ≡ free c a l + (if b == a then r else 0))
        × (n * r ≤ free c (account_id c) (pay c b r l))
  unfolding pay
  pay_covered b a r n l ne funded alive =
      let done = can b r l (omega arith) alive in
      let spared : free c a (pay c b r l) ≡ free c a l + (if b == a then r else 0) =
        elim (ℕ_discrete b a) [
          | yes same ↦ ground (
            arith,
            laws.transfer_credits (account_id c) b r allow_death l (λ e. ne (sym (e ∙ same))) done,
          )
          | no other ↦ ground (
            arith,
            laws.transfer_spares (account_id c) b r a allow_death l ne (λ e. other (sym e)),
          )
        ] in
      (
        spared,
        elim (ℕ_discrete (account_id c) b) [
          | yes self ↦
              rw (← self) (omega (arith, laws.transfer_to_self (account_id c) r allow_death l))
          | no other ↦ elim (laws.transfer_debits (account_id c) b r l other done) [
            | inl exact ↦ omega arith
            | inr (held, dust) ↦ omega (
              arith,
              less_than_one n r c.currency.minimum_balance (free c (account_id c) l) funded dust
                  alive,
            )
          ]
        ],
      )

  pay_winners-exact :
      (side : Bool) (r a : ℕ) (votes : List (AccountId × Bool)) (l : L)
      → a ≢ account_id c
      → won side votes * r ≤ free c (account_id c) l
      → c.currency.minimum_balance ≤ r
      → free c a (pay_winners c side r votes l) ≡ free c a l + won_by a side votes * r
  unfolding pay_winners
  pay_winners-exact side r a [] l ne funded alive = omega arith
  pay_winners-exact side r a ((b, v) ∷ votes) l ne funded alive =
      elim (Bool-cases (bool_eq v side)) [
        | inl same ↦
            let paid = pay_covered b a r (won side votes) l ne (rw same at funded) alive in
            let rest = pay_winners-exact side r a votes (pay c b r l) ne paid.1 alive in
            rw same (ground (arith, rest, paid.0))
        | inr other ↦
            let here = rw other at funded in
            let rest = pay_winners-exact side r a votes l ne (omega arith) alive in
            rw other (ground (arith, rest))
      ]

  distribute-exact :
      (k : Market) (votes : List (AccountId × Bool)) (a : ℕ) (l : L)
      → a ≢ account_id c
      → k.creator ≢ a
      → c.creator_reward_percentage ≤ 100
      → won (yes_wins_in c k) votes ≤ winner_count_of c k
      → k.total_staked ≤ free c (account_id c) l
      → c.currency.minimum_balance ≤ reward_per_winner_of c k
      → free c a (distribute c k votes l)
        ≡ free c a l + won_by a (yes_wins_in c k) votes * reward_per_winner_of c k
  unfolding distribute
  distribute-exact k votes a l ne creator pct counted funded alive =
      let side : Bool = yes_wins_in c k in
      let r : ℕ = reward_per_winner_of c k in
      let pool : ℕ = creator_reward_of c k.total_staked in
      let within = mul-le-mul_right r counted in
      let share = reward_split c k pct in
      elim (Bool-cases (ltb 0 (winner_count_of c k))) [
        | inl some_won ↦
            let winners = pay_winners-exact side r a votes l ne (omega arith) alive in
            let last = pay-receives c laws k.creator pool a (pay_winners c side r votes l) ne in
            rw some_won (ground (arith, winners, last))
        | inr none_won ↦
            let nobody : won_by a side votes ≡ 0 = ground (arith, won_by-le-won a side votes) in
            let last = pay-receives c laws k.creator pool a l ne in
            rw (none_won, nobody) (ground (arith, last))
      ]

  -- A successful release pays every vote for the winning side in full: an account other than the
  -- pallet's and the creator's gains exactly the share for each of its winning votes. This is so
  -- if the pallet's account holds the stake of the market, a share keeps an account alive, the
  -- percentage is at most 100, the storage is valid, and the stored votes of either side are a
  -- `u32`.
  pub release_pays :
      (who m a : ℕ) (s : Storage L) (k : Market)
      → a ≢ account_id c
      → k.creator ≢ a
      → c.creator_reward_percentage ≤ 100
      → IsOrder c
      → IsValid c s
      → yes_count (StorageDoubleMap.prefix m s.votes) ≤ u32_max
      → no_count (StorageDoubleMap.prefix m s.votes) ≤ u32_max
      → StorageMap.get m s.markets ≡ some k
      → k.total_staked ≤ free c (account_id c) s.ledger
      → c.currency.minimum_balance ≤ reward_per_winner_of c k
      → (release_rewards c (signed who) m s).0 ≡ ok tt
      → free c a (release_rewards c (signed who) m s).1.ledger
        ≡ free c a s.ledger
          + won_by a (yes_wins_in c k) (StorageDoubleMap.prefix m s.votes)
            * reward_per_winner_of c k
  unfolding iter_votes
  release_pays who m a s k ne creator pct order v hy hn found funded alive h =
      let votes = StorageDoubleMap.prefix m s.votes in
      let agrees : Agrees c.vote_cost k votes =
        subst (λ o. MarketOk c.vote_cost o votes) found (v.markets_ok m) in
      rw (release-after c who m s k found h).1 (
        rw
          (← count_if-perm (λ (e : AccountId × Bool). e.0 == a && bool_eq e.1 (yes_wins_in c k))
            (order votes))
          (distribute-exact k (iter_votes c m s) a s.ledger ne creator pct
            (won-le-winner_count c k m s order agrees hy hn) funded alive))
