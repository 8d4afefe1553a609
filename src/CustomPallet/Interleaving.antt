-- ===== src/CustomPallet/Interleaving.antt =====
-- Two votes in either order (`vote` of pallets/custom-pallet/src/lib.rs).
use mathlib.Core.Option
use subtrate.Base.{ℕ, ◌≡◌, ◌≢◌, Bool, true, false, refl, some, none, Option, arith}
use subtrate.Frame.Dispatch.{signed, ok}
use subtrate.Frame.StorageMap
use subtrate.Frame.StorageDoubleMap
use subtrate.Frame.Currency.{IsCurrency}
use subtrate.CustomPallet.Types.{Market, Config, Storage}
use subtrate.CustomPallet.Calls.{account_id, count_vote, vote}
use subtrate.CustomPallet.Vote.{vote_effect}

module _ {L : Type 0} (c : Config L) where
  -- One vote after another counts as the other way round, also where a counter is full.
  count_vote_comm :
      (y z : Bool) (k : Market)
      → count_vote c y (count_vote c z k) ≡ count_vote c z (count_vote c y k)
  unfolding count_vote
  count_vote_comm true true k = refl
  count_vote_comm true false k = ground arith
  count_vote_comm false true k = ground arith
  count_vote_comm false false k = refl

  map-count_vote_comm :
      (y z : Bool) (o : Option Market)
      → Option.map (count_vote c y) (Option.map (count_vote c z) o)
        ≡ Option.map (count_vote c z) (Option.map (count_vote c y) o)
  map-count_vote_comm y z none = refl
  map-count_vote_comm y z (some k) = ground (arith, count_vote_comm y z k)

-- What is seen of a storage: its markets, its votes, and the balance of the pallet's account.
pub record SameView {L : Type 0} (c : Config L) (s t : Storage L) : Type 0 where
  pub markets : (i : ℕ) → StorageMap.get i s.markets ≡ StorageMap.get i t.markets
  pub votes : (i j : ℕ) → StorageDoubleMap.get i j s.votes ≡ StorageDoubleMap.get i j t.votes
  pub pot :
      c.currency.free_balance (account_id c) s.ledger
      ≡ c.currency.free_balance (account_id c) t.ledger

module _ {L : Type 0} (c : Config L) (laws : IsCurrency c.currency) where
  -- The votes of two accounts other than that of the pallet, in one market or in two, leave the
  -- same markets, the same stored votes and the same balance of the pallet's account in either
  -- order, if they succeed in both.
  pub votes_commute :
      (a b m n : ℕ) (y z : Bool) (s : Storage L)
      → a ≢ b
      → a ≢ account_id c
      → b ≢ account_id c
      → let s_a = (vote c (signed a) m y s).1 in
        let s_b = (vote c (signed b) n z s).1 in
        (vote c (signed a) m y s).0 ≡ ok tt
        → (vote c (signed b) n z s).0 ≡ ok tt
        → (vote c (signed b) n z s_a).0 ≡ ok tt
        → (vote c (signed a) m y s_b).0 ≡ ok tt
        → SameView c (vote c (signed b) n z s_a).1 (vote c (signed a) m y s_b).1
  votes_commute a b m n y z s ne na nb h_a h_b h_ab h_ba =
      let (ma, va, _, pa) = vote_effect c laws a m y s na h_a in
      let (mb, vb, _, pb) = vote_effect c laws b n z s nb h_b in
      let (mab, vab, _, pab) = vote_effect c laws b n z _ nb h_ab in
      let (mba, vba, _, pba) = vote_effect c laws a m y _ na h_ba in
      record {
        markets = λ i. ground (
          arith,
          ma i,
          ma n,
          mb i,
          mb m,
          mab i,
          mba i,
          map-count_vote_comm c y z (StorageMap.get i s.markets),
        );
        votes = λ i j. ground (arith, va i j, vb i j, vab i j, vba i j);
        pot = omega arith;
      }
