-- ===== src/CustomPallet/Events.antt =====
-- The events of the market pallet (pallets/custom-pallet/src/lib.rs) tell its storage: what
-- somebody who sees no more than the deposited events knows of the markets and the votes.
use subtrate.Base.{
  ℕ, ◌+◌, ◌/◌, ◌<◌, ◌≡◌, sym, ◌∙◌, refl, Bool, true, false, Option, none, some, List, [], ◌∷◌, ◌++◌,
  arith, ◌==◌, ◌&&◌, if◌then◌else◌, min, saturating_add, u32_max, u128_max, length, saturating_mul,
}
use mathlib.Core.Option
use subtrate.Frame.Dispatch.{AccountId}
use subtrate.Frame.StorageMap
use subtrate.Frame.StorageDoubleMap
use subtrate.CustomPallet.Types.{
  Market, Config, Storage, Event, market_created, vote_cast, rewards_distributed, meme_created,
  max_memes,
}
use subtrate.CustomPallet.Calls.{count_vote, creator_reward_of}
use subtrate.CustomPallet.Vote.{MayVote}
use subtrate.CustomPallet.Outcome.{new_market, meme_by}
use subtrate.CustomPallet.Steps.{CallStep, creates, votes_in, releases, adds_meme}
use subtrate.CustomPallet.Reach.{
  Step, calls, new_block, ledger_moves, Reach, here, next, genesis, Happening, run, run-Reach,
}

-- How many markets the events say were created.
unfoldable pub created : List Event → ℕ
created [] = 0
created (market_created m creator end_block metadata ∷ es) = created es + 1
created (vote_cast m voter y ∷ es) = created es
created (rewards_distributed m creator reward ∷ es) = created es
created (meme_created m creator cid template ∷ es) = created es

-- The vote of an account in a market, by the events, newest first.
unfoldable pub vote_told : List Event → ℕ → AccountId → Option Bool
vote_told [] i who = none
vote_told (market_created m creator end_block metadata ∷ es) i who = vote_told es i who
vote_told (vote_cast m voter y ∷ es) i who =
    if m == i && voter == who then some y else vote_told es i who
vote_told (rewards_distributed m creator reward ∷ es) i who = vote_told es i who
vote_told (meme_created m creator cid template ∷ es) i who = vote_told es i who

-- A market changed at one identifier.
abbrev changed : ℕ → (Market → Market) → (ℕ → Option Market) → ℕ → Option Market
changed m f told i = if m == i then Option.map f (told m) else told i

abbrev with_yes : ℕ → Market → Market
with_yes cost k = record k {
  yes_votes = saturating_add u32_max k.yes_votes 1;
  total_staked = saturating_add u128_max k.total_staked cost;
}

abbrev with_no : ℕ → Market → Market
with_no cost k = record k {
  no_votes = saturating_add u32_max k.no_votes 1;
  total_staked = saturating_add u128_max k.total_staked cost;
}

-- A market by the events and the cost of a vote.
unfoldable pub market_told : ℕ → List Event → ℕ → Option Market
market_told cost [] i = none
market_told cost (market_created m creator end_block metadata ∷ es) i =
    if m == i
    then some (record {
      creator = creator;
      end_block = end_block;
      yes_votes = 0;
      no_votes = 0;
      total_staked = 0;
      is_active = true;
      metadata = metadata;
      memes = [];
    })
    else market_told cost es i
market_told cost (vote_cast m voter true ∷ es) i = changed m (with_yes cost) (market_told cost es) i
market_told cost (vote_cast m voter false ∷ es) i = changed m (with_no cost) (market_told cost es) i
market_told cost (rewards_distributed m creator reward ∷ es) i =
    changed m (λ k. record k { is_active = false }) (market_told cost es) i
market_told cost (meme_created m creator cid template ∷ es) i =
    changed m
      (λ k. record k {
        memes = k.memes ++ record { creator = creator; cid = cid; meme_template = template } ∷ [];
      })
      (market_told cost es) i

module _ {L : Type 0} (c : Config L) where
  -- What the events before it say of each event: a vote is one of an account without a vote in the
  -- market, a release is told with the creator of the market and his reward, a meme names its
  -- market and finds room there; and all of them are in a market that is active.
  abbrev pub InActive : List Event → ℕ → (Market → Type 0) → Type 0
  InActive es m holds =
      (k : Market) × (market_told c.vote_cost es m ≡ some k) × (k.is_active ≡ true) × holds k

  abbrev pub IsHistory : List Event → Type 0
  IsHistory [] = Unit
  IsHistory (market_created m creator end_block metadata ∷ es) =
      (m ≡ min (created es) u32_max) × IsHistory es
  IsHistory (vote_cast m voter y ∷ es) =
      InActive es m (λ k. vote_told es m voter ≡ none) × IsHistory es
  IsHistory (rewards_distributed m creator reward ∷ es) =
      InActive es m (λ k.
        (creator ≡ k.creator)
        × (reward ≡ saturating_mul u128_max k.total_staked c.creator_reward_percentage / 100))
      × IsHistory es
  IsHistory (meme_created m creator cid template ∷ es) =
      InActive es m (λ k. (template ≡ m) × (length k.memes < max_memes)) × IsHistory es

  -- A storage whose events tell its markets, its votes and its next identifier.
  pub record IsTold (s : Storage L) : Type 0 where
    pub markets : (i : ℕ) → StorageMap.get i s.markets ≡ market_told c.vote_cost s.events i
    pub votes :
        (i : ℕ) (who : AccountId) → StorageDoubleMap.get i who s.votes ≡ vote_told s.events i who
    pub count : s.market_count ≡ min (created s.events) u32_max
    pub history : IsHistory s.events

  -- A write to a market that the events told.
  insert-changed :
      (f : Market → Market) (m i : ℕ) (k : Market) (s : Storage L)
      → StorageMap.get m s.markets ≡ some k
      → IsTold s
      → StorageMap.get i (StorageMap.insert m (f k) s.markets)
        ≡ changed m f (market_told c.vote_cost s.events) i
  insert-changed f m i k s found told =
      rw (StorageMap.get-insert m i (f k) s.markets, sym (told.markets m), found, told.markets i)
        refl

  voted_once :
      {who : AccountId} {s : Storage L} (m : ℕ) (k : Market)
      → MayVote c who m s k
      → IsTold s
      → InActive s.events m (λ k. vote_told s.events m who ≡ none)
  voted_once {who} {s} m k may told =
      (k, sym (told.markets m) ∙ may.0, may.1, sym (told.votes m who) ∙ may.3)

  CallStep-IsTold : {who : AccountId} {s t : Storage L} → CallStep c who s t → IsTold s → IsTold t
  unfolding market_told vote_told created count_vote creator_reward_of
  CallStep-IsTold {who} {s} (creates bytes fits) told = record {
    markets = λ i.
        rw
          (
            StorageMap.get-insert s.market_count i (new_market c who bytes s) s.markets,
            told.markets i,
          )
          refl;
    votes = told.votes;
    count = let n = told.count in omega arith;
    history = (told.count, told.history);
  }
  CallStep-IsTold {who} {s} (votes_in m true k may) told = record {
    markets = λ i. insert-changed (with_yes c.vote_cost) m i k s may.0 told;
    votes = λ i j. rw (StorageDoubleMap.get-insert m who i j true s.votes, told.votes i j) refl;
    count = told.count;
    history = (voted_once m k may told, told.history);
  }
  CallStep-IsTold {who} {s} (votes_in m false k may) told = record {
    markets = λ i. insert-changed (with_no c.vote_cost) m i k s may.0 told;
    votes = λ i j. rw (StorageDoubleMap.get-insert m who i j false s.votes, told.votes i j) refl;
    count = told.count;
    history = (voted_once m k may told, told.history);
  }
  CallStep-IsTold {s} (releases m k may) told = record {
    markets = λ i. insert-changed (λ k. record k { is_active = false }) m i k s may.0 told;
    votes = told.votes;
    count = told.count;
    history = ((k, sym (told.markets m) ∙ may.0, may.1, (refl, refl)), told.history);
  }
  CallStep-IsTold {who} {s} (adds_meme m cid k may) told = record {
    markets = λ i.
        insert-changed (λ k. record k { memes = k.memes ++ meme_by c who m cid ∷ [] }) m i k s may.0
          told;
    votes = told.votes;
    count = told.count;
    history = ((k, sym (told.markets m) ∙ may.0, may.1, (refl, may.3)), told.history);
  }

  Step-IsTold : {s t : Storage L} → Step c s t → IsTold s → IsTold t
  Step-IsTold (calls st) told = CallStep-IsTold st told
  Step-IsTold new_block told = record {
    markets = told.markets;
    votes = told.votes;
    count = told.count;
    history = told.history;
  }
  Step-IsTold (ledger_moves l) told = record {
    markets = told.markets;
    votes = told.votes;
    count = told.count;
    history = told.history;
  }

  Reach-IsTold : {s t : Storage L} → Reach c s t → IsTold s → IsTold t
  Reach-IsTold here told = told
  Reach-IsTold (next r st) told = Step-IsTold st (Reach-IsTold r told)

  genesis-IsTold : (block : ℕ) (l : L) → IsTold (genesis c block l)
  unfolding market_told vote_told created StorageMap.get StorageDoubleMap.get
  genesis-IsTold block l = record {
    markets = λ i. refl;
    votes = λ i j. refl;
    count = omega arith;
    history = tt;
  }

  -- After any run from the empty storage the deposited events tell the whole storage: replayed in
  -- their order, with the cost of a vote, they give every market with its counters, stake, memes
  -- and whether it is active, also one whose identifier was used twice; the vote of every account
  -- is the one last told; and the next identifier is the number of created markets, up to the
  -- largest `u32`. Every event is one that those before it allow: a creation takes the next
  -- identifier, a vote, a release and a meme are in a market that is active, the vote is of an
  -- account without one there, the release is told with the market's creator and his reward, and
  -- the meme with its market as template, while there is room for it.
  pub run-IsTold :
      (block_number : ℕ) (l : L) (hs : List (Happening c))
      → IsTold (run c hs (genesis c block_number l))
  run-IsTold block_number l hs =
      Reach-IsTold (run-Reach c hs (genesis c block_number l)) (genesis-IsTold block_number l)
