-- ===== src/CustomPallet/Outcome.antt =====
-- When the calls of the market pallet (pallets/custom-pallet/src/lib.rs) other than `vote`
-- succeed, and the storage after them.
use subtrate.Base.{
  ℕ, ◌≤◌, ◌<◌, ◌≡◌, true, false, some, List, [], ◌∷◌, ◌++◌, arith, Option-cases, inl, inr, length,
  length-append, saturating_add, u32_max,
}
use subtrate.Frame.Dispatch.{AccountId, signed, ok}
use subtrate.Frame.StorageMap
use subtrate.CustomPallet.Types.{
  Meme, Market, Config, Storage, market_created, rewards_distributed, meme_created,
  max_metadata_len, max_cid_len, max_memes,
}
use subtrate.CustomPallet.Calls.{
  create_market, creator_reward_of, iter_votes, distribute, release_rewards, release_rewards_body,
  create_meme,
}

module _ {L : Type 0} (c : Config L) where
  abbrev pub new_market : AccountId → List ℕ → Storage L → Market
  new_market creator bytes s = record {
    creator = creator;
    end_block = saturating_add u32_max s.block_number c.market_duration;
    yes_votes = 0;
    no_votes = 0;
    total_staked = 0;
    is_active = true;
    metadata = bytes;
    memes = [];
  }

  abbrev pub after_create : AccountId → List ℕ → Storage L → Storage L
  after_create creator bytes s = record s {
    markets = StorageMap.insert s.market_count (new_market creator bytes s) s.markets;
    market_count = saturating_add u32_max s.market_count 1;
    events =
        market_created s.market_count creator
          (saturating_add u32_max s.block_number c.market_duration) bytes
        ∷ s.events;
  }

  pub create_market-of_le :
      (creator : AccountId) (bytes : List ℕ) (s : Storage L)
      → length bytes ≤ max_metadata_len
      → create_market c (signed creator) bytes s ≡ (ok tt, after_create creator bytes s)
  unfolding create_market
  create_market-of_le creator bytes s h = ground arith

  pub le-of_create_market :
      (creator : AccountId) (bytes : List ℕ) (s : Storage L)
      → (create_market c (signed creator) bytes s).0 ≡ ok tt
      → length bytes ≤ max_metadata_len
  unfolding create_market
  le-of_create_market creator bytes s h = ground arith

  -- What a release needs, beside a signed origin.
  abbrev pub MayRelease : ℕ → Storage L → Market → Type 0
  MayRelease m s k =
      (StorageMap.get m s.markets ≡ some k) × (k.is_active ≡ true) × (k.end_block < s.block_number)

  abbrev pub after_release : ℕ → Storage L → Market → Storage L
  after_release m s k = record s {
    markets = StorageMap.insert m (record k { is_active = false }) s.markets;
    events = rewards_distributed m k.creator (creator_reward_of c k.total_staked) ∷ s.events;
    ledger = distribute c k (iter_votes c m s) s.ledger;
  }

  pub release-of_MayRelease :
      (who m : ℕ) (s : Storage L) (k : Market)
      → MayRelease m s k
      → release_rewards c (signed who) m s ≡ (ok tt, after_release m s k)
  unfolding release_rewards release_rewards_body
  release-of_MayRelease who m s k h = ground arith

  pub MayRelease-of_release :
      (who m : ℕ) (s : Storage L)
      → (release_rewards c (signed who) m s).0 ≡ ok tt
      → (k : Market) × MayRelease m s k
  unfolding release_rewards release_rewards_body
  MayRelease-of_release who m s h = elim (Option-cases (StorageMap.get m s.markets)) [
    | inl missing ↦ ground arith
    | inr (k, e) ↦ (k, (e, ground arith, ground arith))
  ]

  -- What a meme needs, beside a signed origin.
  abbrev pub MayAddMeme : ℕ → List ℕ → Storage L → Market → Type 0
  MayAddMeme m cid s k =
      (StorageMap.get m s.markets ≡ some k)
      × (k.is_active ≡ true)
      × (length cid ≤ max_cid_len)
      × (length k.memes < max_memes)

  abbrev pub meme_by : AccountId → ℕ → List ℕ → Meme
  meme_by creator m cid = record { creator = creator; cid = cid; meme_template = m }

  abbrev pub after_meme : AccountId → ℕ → List ℕ → Storage L → Market → Storage L
  after_meme creator m cid s k = record s {
    markets =
        StorageMap.insert m (record k { memes = k.memes ++ meme_by creator m cid ∷ [] }) s.markets;
    events = meme_created m creator cid m ∷ s.events;
  }

  pub create_meme-of_MayAddMeme :
      (creator m : ℕ) (cid : List ℕ) (s : Storage L) (k : Market)
      → MayAddMeme m cid s k
      → create_meme c (signed creator) m cid s ≡ (ok tt, after_meme creator m cid s k)
  unfolding create_meme
  create_meme-of_MayAddMeme creator m cid s k h =
      ground (arith, length-append k.memes (meme_by creator m cid ∷ []))

  pub MayAddMeme-of_create_meme :
      (creator m : ℕ) (cid : List ℕ) (s : Storage L)
      → (create_meme c (signed creator) m cid s).0 ≡ ok tt
      → (k : Market) × MayAddMeme m cid s k
  unfolding create_meme
  MayAddMeme-of_create_meme creator m cid s h = elim (Option-cases (StorageMap.get m s.markets)) [
    | inl missing ↦ ground arith
    | inr (k, e) ↦ (
      k,
      (
        e,
        ground arith,
        ground arith,
        ground (arith, length-append k.memes (meme_by creator m cid ∷ [])),
      ),
    )
  ]
