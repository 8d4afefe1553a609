-- ===== src/CustomPallet/Invariant.antt =====
-- What holds of the storage of the market pallet (pallets/custom-pallet/src/lib.rs) between two
-- calls: the counters of a market agree with the stored votes, and the bounded vectors keep their
-- bounds.
use subtrate.Base.{
  ℕ, ◌+◌, ◌*◌, ◌≤◌, ◌≡◌, Bool, true, false, not, Option, none, some, List, [], ◌∷◌, ◌++◌, arith,
  min, length, count_if, u32_max, u128_max, saturating_add, if◌then◌else◌,
}
use subtrate.Frame.Dispatch.{AccountId}
use subtrate.Frame.StorageMap
use subtrate.Frame.StorageDoubleMap
use subtrate.CustomPallet.Types.{
  Meme, Market, Config, Storage, max_metadata_len, max_cid_len, max_memes,
}
use subtrate.CustomPallet.Calls.{count_vote}

abbrev pub yes_count : List (AccountId × Bool) → ℕ
yes_count = count_if (λ e. e.1)

abbrev pub no_count : List (AccountId × Bool) → ℕ
no_count = count_if (λ e. not e.1)

-- Every meme's identifier fits its bound.
abbrev pub CidsFit : List Meme → Type 0
CidsFit [] = Unit
CidsFit (m ∷ ms) = (length m.cid ≤ max_cid_len) × CidsFit ms

-- A market against the votes stored for it, at the cost of one vote.
pub record Agrees (cost : ℕ) (k : Market) (votes : List (AccountId × Bool)) : Type 0 where
  pub yes_counted : k.yes_votes ≡ min (yes_count votes) u32_max
  pub no_counted : k.no_votes ≡ min (no_count votes) u32_max
  pub staked : k.total_staked ≡ min ((yes_count votes + no_count votes) * cost) u128_max
  pub metadata_fits : length k.metadata ≤ max_metadata_len
  pub memes_fit : length k.memes ≤ max_memes
  pub cids_fit : CidsFit k.memes

-- The market under one identifier, if there is one; no votes are stored for any other.
abbrev pub MarketOk : ℕ → Option Market → List (AccountId × Bool) → Type 0
MarketOk cost none votes = yes_count votes + no_count votes ≡ 0
MarketOk cost (some k) votes = Agrees cost k votes

abbrev pub OkAt : {L : Type 0} → Config L → Storage L → ℕ → Type 0
OkAt c s i = MarketOk c.vote_cost (StorageMap.get i s.markets) (StorageDoubleMap.prefix i s.votes)

-- The identifiers from the next one on are free.
abbrev pub IsFreshAt : {L : Type 0} → Storage L → ℕ → Type 0
IsFreshAt s i = s.market_count ≤ i → StorageMap.get i s.markets ≡ none

pub record IsValid {L : Type 0} (c : Config L) (s : Storage L) : Type 0 where
  pub markets_ok : (i : ℕ) → OkAt c s i
  pub fresh : (i : ℕ) → IsFreshAt s i

pub CidsFit-append :
    (ms : List Meme) (m : Meme) → CidsFit ms → length m.cid ≤ max_cid_len → CidsFit (ms ++ m ∷ [])
CidsFit-append [] m h p = (p, tt)
CidsFit-append (x ∷ ms) m h p = (h.0, CidsFit-append ms m h.1 p)

-- Adding the cost once more to a saturated multiple of it.
saturating_step :
    (cost bound n n' t : ℕ)
    → n' ≡ 1 + n
    → t ≡ min (n * cost) bound
    → saturating_add bound t cost ≡ min (n' * cost) bound
saturating_step cost bound n n' t e h = rw (e, h) (omega arith)

-- One more vote in the counters and in the stored votes.
pub count_vote-Agrees :
    {L : Type 0} (c : Config L) (y : Bool) (k : Market) (votes votes' : List (AccountId × Bool))
    → yes_count votes' ≡ (if y then 1 else 0) + yes_count votes
    → no_count votes' ≡ (if not y then 1 else 0) + no_count votes
    → Agrees c.vote_cost k votes
    → Agrees c.vote_cost (count_vote c y k) votes'
unfolding count_vote
count_vote-Agrees c true k votes votes' hy hn a = record {
  yes_counted = omega (arith, a.yes_counted);
  no_counted = omega (arith, a.no_counted);
  staked = saturating_step c.vote_cost u128_max _ _ _ (omega arith) a.staked;
  metadata_fits = a.metadata_fits;
  memes_fit = a.memes_fit;
  cids_fit = a.cids_fit;
}
count_vote-Agrees c false k votes votes' hy hn a = record {
  yes_counted = omega (arith, a.yes_counted);
  no_counted = omega (arith, a.no_counted);
  staked = saturating_step c.vote_cost u128_max _ _ _ (omega arith) a.staked;
  metadata_fits = a.metadata_fits;
  memes_fit = a.memes_fit;
  cids_fit = a.cids_fit;
}
