-- ===== src/CustomPallet/Typed.antt =====
-- What the market pallet (pallets/custom-pallet/src/lib.rs) stores has the types that its storage
-- items declare: `u32`, `u128` and the bounds of `BoundedVec`, and every stored vote has a market.
use subtrate.Base.{
  ℕ, ◌≤◌, ◌≡◌, sym, ◌∙◌, Bool, true, false, some, List, [], ◌∷◌, ◌++◌, arith, ◌==◌, ◌&&◌, length,
  length-append, Bool-cases, inl, inr, u32_max, u128_max,
}
use mathlib.Core.Path.{subst}
use subtrate.Frame.Dispatch.{AccountId}
use subtrate.Frame.StorageMap
use subtrate.Frame.StorageDoubleMap
use subtrate.CustomPallet.Types.{
  Meme, Market, Config, Storage, max_metadata_len, max_cid_len, max_memes,
}
use subtrate.CustomPallet.Calls.{count_vote}
use subtrate.CustomPallet.Outcome.{new_market, meme_by}
use subtrate.CustomPallet.Steps.{CallStep, creates, votes_in, releases, adds_meme}
use subtrate.CustomPallet.Reach.{
  Step, calls, new_block, ledger_moves, Reach, here, next, genesis, Happening, run, run-Reach,
}

abbrev pub MemesFit : List Meme → Type 0
MemesFit [] = Unit
MemesFit (m ∷ ms) = ((length m.cid ≤ max_cid_len) × (m.meme_template ≤ u32_max)) × MemesFit ms

-- A market under its identifier.
pub record MarketFits (i : ℕ) (k : Market) : Type 0 where
  pub identifier : i ≤ u32_max
  pub end_block : k.end_block ≤ u32_max
  pub yes_votes : k.yes_votes ≤ u32_max
  pub no_votes : k.no_votes ≤ u32_max
  pub total_staked : k.total_staked ≤ u128_max
  pub metadata : length k.metadata ≤ max_metadata_len
  pub memes : length k.memes ≤ max_memes
  pub memes_fit : MemesFit k.memes

abbrev pub MarketsFit : StorageMap.StorageMap Market → Type 0
MarketsFit ms = (i : ℕ) (k : Market) → StorageMap.get i ms ≡ some k → MarketFits i k

-- Every stored vote is one in a market that is stored.
abbrev pub HaveMarkets :
    StorageMap.StorageMap Market → StorageDoubleMap.StorageDoubleMap Bool → Type 0
HaveMarkets ms votes =
    (i j : ℕ) (y : Bool)
    → StorageDoubleMap.get i j votes ≡ some y
    → (k : Market) × (StorageMap.get i ms ≡ some k)

pub record IsTyped {L : Type 0} (s : Storage L) : Type 0 where
  pub count : s.market_count ≤ u32_max
  pub markets : MarketsFit s.markets
  pub voted : HaveMarkets s.markets s.votes

MemesFit-append :
    (ms : List Meme) (m : Meme)
    → MemesFit ms
    → length m.cid ≤ max_cid_len
    → m.meme_template ≤ u32_max
    → MemesFit (ms ++ m ∷ [])
MemesFit-append [] m h c t = ((c, t), tt)
MemesFit-append (x ∷ ms) m h c t = (h.0, MemesFit-append ms m h.1 c t)

insert-MarketsFit :
    (m : ℕ) (k' : Market) (ms : StorageMap.StorageMap Market)
    → MarketFits m k'
    → MarketsFit ms
    → MarketsFit (StorageMap.insert m k' ms)
insert-MarketsFit m k' ms fits all i k h =
    let looked = sym (StorageMap.get-insert m i k' ms) ∙ h in
    elim (Bool-cases (m == i)) [
      | inl same ↦
          let at : m ≡ i = ground arith in
          let is : k' ≡ k = ground arith in
          subst (λ i. MarketFits i k) at (subst (MarketFits m) is fits)
      | inr other ↦ all i k (ground arith)
    ]

insert-HaveMarkets :
    (m : ℕ) (k' : Market) (ms : StorageMap.StorageMap Market)
    (votes : StorageDoubleMap.StorageDoubleMap Bool)
    → HaveMarkets ms votes
    → HaveMarkets (StorageMap.insert m k' ms) votes
insert-HaveMarkets m k' ms votes have i j y h =
    let (k, found) = have i j y h in
    let looked = StorageMap.get-insert m i k' ms in
    elim (Bool-cases (m == i)) [ inl same ↦ (k', ground arith) | inr other ↦ (k, ground arith) ]

vote-HaveMarkets :
    (m voter : ℕ) (vote_yes : Bool) (k : Market) (ms : StorageMap.StorageMap Market)
    (votes : StorageDoubleMap.StorageDoubleMap Bool)
    → StorageMap.get m ms ≡ some k
    → HaveMarkets ms votes
    → HaveMarkets ms (StorageDoubleMap.insert m voter vote_yes votes)
vote-HaveMarkets m voter vote_yes k ms votes found have i j y h =
    let looked = sym (StorageDoubleMap.get-insert m voter i j vote_yes votes) ∙ h in
    elim (Bool-cases (m == i && voter == j)) [
      | inl same ↦ (k, ground arith)
      | inr other ↦ have i j y (ground arith)
    ]

module _ {L : Type 0} (c : Config L) where
  count_vote-MarketFits :
      (m : ℕ) (y : Bool) (k : Market) → MarketFits m k → MarketFits m (count_vote c y k)
  unfolding count_vote
  count_vote-MarketFits m true k f = record {
    identifier = f.identifier;
    end_block = f.end_block;
    yes_votes = omega arith;
    no_votes = f.no_votes;
    total_staked = omega arith;
    metadata = f.metadata;
    memes = f.memes;
    memes_fit = f.memes_fit;
  }
  count_vote-MarketFits m false k f = record {
    identifier = f.identifier;
    end_block = f.end_block;
    yes_votes = f.yes_votes;
    no_votes = omega arith;
    total_staked = omega arith;
    metadata = f.metadata;
    memes = f.memes;
    memes_fit = f.memes_fit;
  }

  CallStep-IsTyped :
      {who : AccountId} {s t : Storage L} → CallStep c who s t → IsTyped s → IsTyped t
  CallStep-IsTyped {who = creator} {s} (creates bytes fits) v = record {
    count = omega arith;
    markets =
        insert-MarketsFit s.market_count (new_market c creator bytes s) s.markets
          (record {
            identifier = v.count;
            end_block = omega arith;
            yes_votes = omega arith;
            no_votes = omega arith;
            total_staked = omega arith;
            metadata = fits;
            memes = omega arith;
            memes_fit = tt;
          })
          v.markets;
    voted =
        insert-HaveMarkets s.market_count (new_market c creator bytes s) s.markets s.votes v.voted;
  }
  CallStep-IsTyped {who = voter} {s} (votes_in m y k may) v = record {
    count = v.count;
    markets =
        insert-MarketsFit m (count_vote c y k) s.markets
          (count_vote-MarketFits m y k (v.markets m k may.0)) v.markets;
    voted =
        insert-HaveMarkets m (count_vote c y k) s.markets _
          (vote-HaveMarkets m voter y k s.markets s.votes may.0 v.voted);
  }
  CallStep-IsTyped {s} (releases m k may) v =
      let k' : Market = record k { is_active = false } in
      let f = v.markets m k may.0 in
      record {
        count = v.count;
        markets =
            insert-MarketsFit m k' s.markets
              (record {
                identifier = f.identifier;
                end_block = f.end_block;
                yes_votes = f.yes_votes;
                no_votes = f.no_votes;
                total_staked = f.total_staked;
                metadata = f.metadata;
                memes = f.memes;
                memes_fit = f.memes_fit;
              })
              v.markets;
        voted = insert-HaveMarkets m k' s.markets s.votes v.voted;
      }
  CallStep-IsTyped {who = creator} {s} (adds_meme m cid k may) v =
      let meme = meme_by c creator m cid in
      let k' : Market = record k { memes = k.memes ++ meme ∷ [] } in
      let f = v.markets m k may.0 in
      record {
        count = v.count;
        markets =
            insert-MarketsFit m k' s.markets
              (record {
                identifier = f.identifier;
                end_block = f.end_block;
                yes_votes = f.yes_votes;
                no_votes = f.no_votes;
                total_staked = f.total_staked;
                metadata = f.metadata;
                memes = omega (arith, length-append k.memes (meme ∷ []));
                memes_fit = MemesFit-append k.memes meme f.memes_fit (omega arith) f.identifier;
              })
              v.markets;
        voted = insert-HaveMarkets m k' s.markets s.votes v.voted;
      }

  Step-IsTyped : {s t : Storage L} → Step c s t → IsTyped s → IsTyped t
  Step-IsTyped (calls st) v = CallStep-IsTyped st v
  Step-IsTyped new_block v = record { count = v.count; markets = v.markets; voted = v.voted }
  Step-IsTyped (ledger_moves l) v = record { count = v.count; markets = v.markets; voted = v.voted }

  Reach-IsTyped : {s t : Storage L} → Reach c s t → IsTyped s → IsTyped t
  Reach-IsTyped here v = v
  Reach-IsTyped (next r st) v = Step-IsTyped st (Reach-IsTyped r v)

  genesis-IsTyped : (block : ℕ) (l : L) → IsTyped (genesis c block l)
  unfolding StorageMap.get StorageDoubleMap.get
  genesis-IsTyped block l = record {
    count = omega arith;
    markets = λ i k h. absurd (cc);
    voted = λ i j y h. absurd (cc);
  }

  -- After any run from the empty storage, also one that has used up the market identifiers, what is
  -- stored has the declared types: the next identifier, and of every market its identifier, end
  -- block, counters and stake are `u32` and `u128`, its metadata and memes keep their bounds, each
  -- meme has an identifier within its bound and a `u32` template; and every stored vote is one in
  -- a stored market.
  pub run-IsTyped :
      (block_number : ℕ) (l : L) (hs : List (Happening c))
      → IsTyped (run c hs (genesis c block_number l))
  run-IsTyped block_number l hs =
      Reach-IsTyped (run-Reach c hs (genesis c block_number l)) (genesis-IsTyped block_number l)
