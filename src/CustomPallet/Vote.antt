-- ===== src/CustomPallet/Vote.antt =====
-- `vote` of the market pallet (pallets/custom-pallet/src/lib.rs): when it succeeds, what it
-- writes, and that nobody votes twice.
use subtrate.Base.{
  ap, ◌==◌, ◌&&◌, ℕ, ◌+◌, ◌≤◌, ◌≡◌, ◌≢◌, ◌↔◌, Bool, true, none, some, ◌∷◌, arith, Option-cases,
  if◌then◌else◌, inl, inr,
}
use mathlib.Core.Option
use subtrate.Frame.Dispatch.{AccountId, signed, ok}
use subtrate.Frame.Currency.{IsCurrency, keep_alive}
use subtrate.Frame.StorageMap
use subtrate.Frame.StorageMap.{get-insert}
use subtrate.Frame.StorageDoubleMap
use subtrate.CustomPallet.Types.{Market, Config, Storage, vote_cast}
use subtrate.CustomPallet.Calls.{account_id, count_vote, vote_body, vote}

module _ {L : Type 0} (c : Config L) where
  -- What a vote needs, beside a signed origin.
  abbrev pub MayVote : AccountId → ℕ → Storage L → Market → Type 0
  MayVote voter m s k =
      (StorageMap.get m s.markets ≡ some k)
      × (k.is_active ≡ true)
      × (s.block_number ≤ k.end_block)
      × (StorageDoubleMap.get m voter s.votes ≡ none)
      × ((c.currency.transfer voter (account_id c) c.vote_cost keep_alive s.ledger).0 ≡ ok tt)

  -- The storage after a vote for the market `k`.
  abbrev pub after_vote : AccountId → ℕ → Bool → Storage L → Market → Storage L
  after_vote voter m y s k = record s {
    markets = StorageMap.insert m (count_vote c y k) s.markets;
    votes = StorageDoubleMap.insert m voter y s.votes;
    events = vote_cast m voter y ∷ s.events;
    ledger = (c.currency.transfer voter (account_id c) c.vote_cost keep_alive s.ledger).1;
  }

  pub vote-of_MayVote :
      (voter m : ℕ) (y : Bool) (s : Storage L) (k : Market)
      → MayVote voter m s k
      → vote c (signed voter) m y s ≡ (ok tt, after_vote voter m y s k)
  unfolding vote vote_body StorageDoubleMap.contains_key
  vote-of_MayVote voter m y s k h = ground arith

  pub MayVote-of_vote :
      (voter m : ℕ) (y : Bool) (s : Storage L)
      → (vote c (signed voter) m y s).0 ≡ ok tt
      → (k : Market) × MayVote voter m s k
  unfolding vote vote_body StorageDoubleMap.contains_key
  MayVote-of_vote voter m y s h = elim (Option-cases (StorageMap.get m s.markets)) [
    | inl missing ↦ ground arith
    | inr (k, e) ↦ (k, (e, ground arith, ground arith, ground arith, ground arith))
  ]

  -- A signed vote succeeds exactly when the market exists and is active, its end block has not
  -- passed, the account has not voted in it, and the currency moves the vote's cost.
  pub vote-ok_iff :
      (voter m : ℕ) (y : Bool) (s : Storage L)
      → ((vote c (signed voter) m y s).0 ≡ ok tt) ↔ ((k : Market) × MayVote voter m s k)
  vote-ok_iff voter m y s =
      (MayVote-of_vote voter m y s, λ (k, h). ap (λ r. r.0) (vote-of_MayVote voter m y s k h))

  pub vote-after :
      (voter m : ℕ) (y : Bool) (s : Storage L)
      → (vote c (signed voter) m y s).0 ≡ ok tt
      → (k : Market) × MayVote voter m s k
        × ((vote c (signed voter) m y s).1 ≡ after_vote voter m y s k)
  vote-after voter m y s h =
      let (k, may) = MayVote-of_vote voter m y s h in
      (k, may, ap (λ r. r.1) (vote-of_MayVote voter m y s k may))

module _ {L : Type 0} (c : Config L) (laws : IsCurrency c.currency) where
  pub vote_effect :
      (voter m : ℕ) (y : Bool) (s : Storage L)
      → voter ≢ account_id c
      → (vote c (signed voter) m y s).0 ≡ ok tt
      → let s' = (vote c (signed voter) m y s).1 in
        ((i : ℕ)
          → StorageMap.get i s'.markets ≡ (
              if m == i
              then Option.map (count_vote c y) (StorageMap.get m s.markets)
              else StorageMap.get i s.markets))
        × ((i j : ℕ)
            → StorageDoubleMap.get i j s'.votes
              ≡ (if m == i && voter == j then some y else StorageDoubleMap.get i j s.votes))
        × (c.currency.free_balance voter s'.ledger + c.vote_cost
            ≡ c.currency.free_balance voter s.ledger)
        × (c.currency.free_balance (account_id c) s'.ledger
            ≡ c.currency.free_balance (account_id c) s.ledger + c.vote_cost)
  vote_effect voter m y s other h =
      let (k, may, e) = vote-after c voter m y s h in
      rw e (
        λ i. rw (may.0) (StorageMap.get-insert m i (count_vote c y k) s.markets),
        λ i j. StorageDoubleMap.get-insert m voter i j y s.votes,
        laws.transfer_keeps voter (account_id c) c.vote_cost s.ledger other may.4,
        laws.transfer_credits voter (account_id c) c.vote_cost keep_alive s.ledger other may.4,
      )
