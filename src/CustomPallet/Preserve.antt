-- ===== src/CustomPallet/Preserve.antt =====
-- Every call of the market pallet (pallets/custom-pallet/src/lib.rs) keeps the invariant.
use subtrate.Base.{
  ℕ, ◌≤◌, ◌<◌, ◌≡◌, Bool, false, not, none, some, List, [], ◌∷◌, ◌++◌, arith, length, length-append,
  u32_max,
}
use subtrate.Frame.Dispatch.{AccountId}
use subtrate.Frame.StorageMap
use subtrate.Frame.StorageDoubleMap
use subtrate.CustomPallet.Types.{Market, Config, Storage, max_metadata_len}
use subtrate.CustomPallet.Calls.{count_vote}
use subtrate.CustomPallet.Vote.{MayVote, after_vote}
use subtrate.CustomPallet.Outcome.{
  new_market, after_create, after_release, MayAddMeme, meme_by, after_meme,
}
use subtrate.CustomPallet.Steps.{CallStep, creates, votes_in, releases, adds_meme}
use subtrate.CustomPallet.Invariant.{
  OkAt, MarketOk, IsFreshAt, IsValid, Agrees, CidsFit-append, count_vote-Agrees,
}

module _ {L : Type 0} (c : Config L) where
  after_vote-OkAt :
      (voter m : ℕ) (y : Bool) (s : Storage L) (k : Market)
      → MayVote c voter m s k
      → (i : ℕ) → OkAt c s i
      → OkAt c (after_vote c voter m y s k) i
  unfolding StorageDoubleMap.contains_key
  after_vote-OkAt voter m y s k may i h = ground (
    arith,
    StorageMap.get-insert m i (count_vote c y k) s.markets,
    StorageDoubleMap.count_if-prefix-insert (λ e. e.1) m voter i y s.votes,
    StorageDoubleMap.count_if-prefix-insert (λ e. not e.1) m voter i y s.votes,
    count_vote-Agrees c y k (StorageDoubleMap.prefix i s.votes)
        (StorageDoubleMap.prefix i (StorageDoubleMap.insert m voter y s.votes)),
  )

  after_create-OkAt :
      (creator : AccountId) (bytes : List ℕ) (s : Storage L)
      → length bytes ≤ max_metadata_len
      → StorageMap.get s.market_count s.markets ≡ none
      → (i : ℕ) → OkAt c s i
      → OkAt c (after_create c creator bytes s) i
  after_create-OkAt creator bytes s fits free i h =
      ground
        (arith, StorageMap.get-insert s.market_count i (new_market c creator bytes s) s.markets)

  -- A market whose votes, metadata and memes stay is as good as before.
  replaced-OkAt :
      (m : ℕ) (k k' : Market) (s : Storage L)
      → StorageMap.get m s.markets ≡ some k
      → ((votes : List (AccountId × Bool))
          → Agrees c.vote_cost k votes
          → Agrees c.vote_cost k' votes)
      → (i : ℕ) → OkAt c s i
      → MarketOk c.vote_cost
          (StorageMap.get i (StorageMap.insert m k' s.markets))
          (StorageDoubleMap.prefix i s.votes)
  replaced-OkAt m k k' s found keep i h =
      ground
        (arith, StorageMap.get-insert m i k' s.markets, keep (StorageDoubleMap.prefix i s.votes))

  after_release-OkAt :
      (m : ℕ) (k : Market) (s : Storage L)
      → StorageMap.get m s.markets ≡ some k
      → (i : ℕ) → OkAt c s i
      → OkAt c (after_release c m s k) i
  after_release-OkAt m k s found =
      replaced-OkAt m k (record k { is_active = false }) s found (λ votes a. ground arith)

  after_meme-OkAt :
      (creator m : ℕ) (cid : List ℕ) (k : Market) (s : Storage L)
      → MayAddMeme c m cid s k
      → (i : ℕ) → OkAt c s i
      → OkAt c (after_meme c creator m cid s k) i
  after_meme-OkAt creator m cid k s may =
      replaced-OkAt m k (record k { memes = k.memes ++ meme_by c creator m cid ∷ [] }) s may.0
        (λ votes a. ground (
          arith,
          length-append k.memes (meme_by c creator m cid ∷ []),
          CidsFit-append k.memes (meme_by c creator m cid),
        ))

  -- Writing under a key that is taken leaves the keys from the next identifier on free.
  insert-IsFreshAt :
      (m n : ℕ) (k k' : Market) (s : Storage L)
      → StorageMap.get m s.markets ≡ some k
      → s.market_count ≤ n
      → (i : ℕ) → IsFreshAt s i
      → n ≤ i
      → StorageMap.get i (StorageMap.insert m k' s.markets) ≡ none
  insert-IsFreshAt m n k k' s found le i h at =
      ground (arith, StorageMap.get-insert m i k' s.markets)

  -- A successful call keeps the invariant, if the identifiers have not run out.
  pub CallStep-IsValid :
      {who : AccountId} {s t : Storage L}
      → CallStep c who s t
      → s.market_count < u32_max
      → IsValid c s
      → IsValid c t
  CallStep-IsValid {who = creator} {s} (creates bytes fits) room v = record {
    markets_ok = λ i.
        after_create-OkAt creator bytes s fits (v.fresh s.market_count (omega arith)) i
          (v.markets_ok i);
    fresh = λ i h. ground (
      arith,
      v.fresh i,
      StorageMap.get-insert s.market_count i (new_market c creator bytes s) s.markets,
    );
  }
  CallStep-IsValid {who = voter} {s} (votes_in m y k may) room v = record {
    markets_ok = λ i. after_vote-OkAt voter m y s k may i (v.markets_ok i);
    fresh = λ i h. insert-IsFreshAt m s.market_count k _ s may.0 (omega arith) i (v.fresh i) h;
  }
  CallStep-IsValid {s} (releases m k may) room v = record {
    markets_ok = λ i. after_release-OkAt m k s may.0 i (v.markets_ok i);
    fresh = λ i h. insert-IsFreshAt m s.market_count k _ s may.0 (omega arith) i (v.fresh i) h;
  }
  CallStep-IsValid {who = creator} {s} (adds_meme m cid k may) room v = record {
    markets_ok = λ i. after_meme-OkAt creator m cid k s may i (v.markets_ok i);
    fresh = λ i h. insert-IsFreshAt m s.market_count k _ s may.0 (omega arith) i (v.fresh i) h;
  }
