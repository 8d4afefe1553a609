-- ===== src/CustomPallet/Finality.antt =====
-- What the market pallet (pallets/custom-pallet/src/lib.rs) never takes back: a vote once cast, and
-- the record of a market once its rewards are released.
use subtrate.Base.{
  ℕ, ◌≤◌, ◌<◌, ◌≡◌, ◌≢◌, ap, refl, Bool, false, [], arith, u32_max, List, ◌∷◌, ◌++◌, some,
}
use mathlib.Core.Option
use subtrate.Frame.Dispatch.{AccountId, signed, ok}
use subtrate.Frame.StorageMap
use subtrate.Frame.StorageDoubleMap
use subtrate.CustomPallet.Types.{Market, Config, Storage}
use subtrate.CustomPallet.Calls.{count_vote, vote, release_rewards, create_meme}
use subtrate.CustomPallet.Vote.{MayVote-of_vote, vote-after}
use subtrate.CustomPallet.Outcome.{
  new_market, meme_by, after_release, MayRelease-of_release, release-of_MayRelease,
  MayAddMeme-of_create_meme,
}
use subtrate.CustomPallet.Steps.{CallStep, creates, votes_in, releases, adds_meme}
use subtrate.CustomPallet.Reach.{
  Step, Reach, here, next, calls, new_block, ledger_moves, Step-count, Happening, run, run-Reach,
}

abbrev pub closed : Market → Market
closed k = record k { is_active = false }

module _ {L : Type 0} (c : Config L) where
  CallStep-vote_stays :
      {who : AccountId} {s t : Storage L} (m a : ℕ) (y : Bool)
      → CallStep c who s t
      → StorageDoubleMap.get m a s.votes ≡ some y
      → StorageDoubleMap.get m a t.votes ≡ some y
  CallStep-vote_stays m a y (creates bytes fits) h = h
  CallStep-vote_stays {who} {s} m a y (votes_in i z k may) h =
      ground (arith, StorageDoubleMap.get-insert i who m a z s.votes)
  CallStep-vote_stays m a y (releases i k may) h = h
  CallStep-vote_stays m a y (adds_meme i cid k may) h = h

  Step-vote_stays :
      {s t : Storage L} (m a : ℕ) (y : Bool)
      → Step c s t
      → StorageDoubleMap.get m a s.votes ≡ some y
      → StorageDoubleMap.get m a t.votes ≡ some y
  Step-vote_stays m a y (calls st) h = CallStep-vote_stays m a y st h
  Step-vote_stays m a y new_block h = h
  Step-vote_stays m a y (ledger_moves l) h = h

  Reach-vote_stays :
      {s t : Storage L} (m a : ℕ) (y : Bool)
      → Reach c s t
      → StorageDoubleMap.get m a s.votes ≡ some y
      → StorageDoubleMap.get m a t.votes ≡ some y
  Reach-vote_stays m a y here h = h
  Reach-vote_stays m a y (next r st) h = Step-vote_stays m a y st (Reach-vote_stays m a y r h)

  -- Once an account's vote in a market has succeeded, whatever happens next, that vote stays as it
  -- was cast and no further vote of the account in the market succeeds.
  pub vote_once :
      (a m : ℕ) (y z : Bool) (s : Storage L) (hs : List (Happening c))
      → (vote c (signed a) m y s).0 ≡ ok tt
      → let t = run c hs (vote c (signed a) m y s).1 in
        (StorageDoubleMap.get m a t.votes ≡ some y) × ((vote c (signed a) m z t).0 ≢ ok tt)
  vote_once a m y z s hs h =
      let (k, may, e) = vote-after c a m y s h in
      let cast : StorageDoubleMap.get m a (vote c (signed a) m y s).1.votes ≡ some y =
        rw e (ground (arith, StorageDoubleMap.get-insert m a m a y s.votes)) in
      let kept = Reach-vote_stays m a y (run-Reach c hs (vote c (signed a) m y s).1) cast in
      (
        kept,
        λ again.
            let (k', may') = MayVote-of_vote c a m z (run c hs (vote c (signed a) m y s).1) again in
            cc,
      )

  -- A market that is not active is not written to by any call, if its identifier has been passed.
  CallStep-frozen :
      {who : AccountId} {s t : Storage L} (m : ℕ) (k : Market)
      → k.is_active ≡ false
      → CallStep c who s t
      → m < s.market_count
      → StorageMap.get m s.markets ≡ some k
      → StorageMap.get m t.markets ≡ some k
  CallStep-frozen {who} {s} m k off (creates bytes fits) lt h =
      ground (arith, StorageMap.get-insert s.market_count m (new_market c who bytes s) s.markets)
  CallStep-frozen {s} m k off (votes_in i y k' may) lt h =
      ground (arith, StorageMap.get-insert i m (count_vote c y k') s.markets)
  CallStep-frozen {s} m k off (releases i k' may) lt h =
      ground (arith, StorageMap.get-insert i m (closed k') s.markets)
  CallStep-frozen {who} {s} m k off (adds_meme i cid k' may) lt h = ground (
    arith,
    StorageMap.get-insert i m (record k' { memes = k'.memes ++ meme_by c who i cid ∷ [] })
        s.markets,
  )

  Step-frozen :
      {s t : Storage L} (m : ℕ) (k : Market)
      → k.is_active ≡ false
      → Step c s t
      → m < s.market_count
      → StorageMap.get m s.markets ≡ some k
      → StorageMap.get m t.markets ≡ some k
  Step-frozen m k off (calls st) lt h = CallStep-frozen m k off st lt h
  Step-frozen m k off new_block lt h = h
  Step-frozen m k off (ledger_moves l) lt h = h

  Reach-frozen :
      {s t : Storage L} (m : ℕ) (k : Market)
      → k.is_active ≡ false
      → Reach c s t
      → s.market_count ≤ u32_max
      → m < s.market_count
      → StorageMap.get m s.markets ≡ some k
      → (StorageMap.get m t.markets ≡ some k) × (m < t.market_count) × (t.market_count ≤ u32_max)
  Reach-frozen m k off here top lt h = (h, lt, top)
  Reach-frozen m k off (next r st) top lt h =
      let (h', lt', top') = Reach-frozen m k off r top lt h in
      (
        Step-frozen m k off st lt' h',
        omega (arith, Step-count c st top'),
        omega (arith, Step-count c st top'),
      )

  -- The state of the market, and what is refused, at any later point.
  frozen_after :
      (m a : ℕ) (z : Bool) (cid : List ℕ) (s t : Storage L) (k : Market)
      → m < s.market_count
      → s.market_count ≤ u32_max
      → StorageMap.get m s.markets ≡ some k
      → Reach c (after_release c m s k) t
      → (StorageMap.get m t.markets ≡ Option.map closed (StorageMap.get m s.markets))
        × ((vote c (signed a) m z t).0 ≢ ok tt)
        × ((release_rewards c (signed a) m t).0 ≢ ok tt)
        × ((create_meme c (signed a) m cid t).0 ≢ ok tt)
  frozen_after m a z cid s t k lt top found r =
      let frozen =
        Reach-frozen m (closed k) refl r top lt
          (ground (arith, StorageMap.get-insert m m (closed k) s.markets)) in
      (
        rw found frozen.0,
        λ voted. let (k', may') = MayVote-of_vote c a m z t voted in ground arith,
        λ again. let (k', may') = MayRelease-of_release c a m t again in ground arith,
        λ meme. let (k', may') = MayAddMeme-of_create_meme c a m cid t meme in ground arith,
      )

  -- Once the rewards of a market are released, whatever happens next, its record is frozen with
  -- `is_active` unset, and no vote, release or meme for it succeeds. The market is one whose
  -- identifier the counter has passed, and the counter is a `u32`.
  pub release_final :
      (who m a : ℕ) (z : Bool) (cid : List ℕ) (s : Storage L) (hs : List (Happening c))
      → m < s.market_count
      → s.market_count ≤ u32_max
      → (release_rewards c (signed who) m s).0 ≡ ok tt
      → let t = run c hs (release_rewards c (signed who) m s).1 in
        (StorageMap.get m t.markets ≡ Option.map closed (StorageMap.get m s.markets))
        × ((vote c (signed a) m z t).0 ≢ ok tt)
        × ((release_rewards c (signed a) m t).0 ≢ ok tt)
        × ((create_meme c (signed a) m cid t).0 ≢ ok tt)
  release_final who m a z cid s hs lt top h =
      let (k, may) = MayRelease-of_release c who m s h in
      rw (ap (λ r. r.1) (release-of_MayRelease c who m s k may)) (
        frozen_after m a z cid s (run c hs (after_release c m s k)) k lt top may.0
          (run-Reach c hs (after_release c m s k)))
