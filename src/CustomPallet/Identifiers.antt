-- ===== src/CustomPallet/Identifiers.antt =====
-- The identifiers that `create_market` of the market pallet (pallets/custom-pallet/src/lib.rs)
-- gives out: fresh until the counter saturates, and the same one over and over from then on.
use subtrate.Base.{ℕ, ◌+◌, ◌<◌, ◌≡◌, refl, ap, some, List, arith, u32_max}
use subtrate.Frame.Dispatch.{AccountId, signed, ok}
use subtrate.Frame.StorageMap
use subtrate.CustomPallet.Types.{Market, Config, Storage}
use subtrate.CustomPallet.Calls.{create_market}
use subtrate.CustomPallet.Outcome.{
  new_market, after_create, create_market-of_le, le-of_create_market,
}
use subtrate.CustomPallet.Invariant.{IsValid}

module _ {L : Type 0} (c : Config L) where
  create-after :
      (creator : AccountId) (bytes : List ℕ) (s : Storage L)
      → (create_market c (signed creator) bytes s).0 ≡ ok tt
      → (create_market c (signed creator) bytes s).1 ≡ after_create c creator bytes s
  create-after creator bytes s h =
      ap (λ r. r.1)
        (create_market-of_le c creator bytes s (le-of_create_market c creator bytes s h))

  -- While the counter of a valid storage is below the largest `u32`, a successful creation stores
  -- the new market under the counter, raises the counter by one, and keeps every other market.
  pub create_market_fresh :
      (creator : AccountId) (bytes : List ℕ) (s : Storage L)
      → IsValid c s
      → s.market_count < u32_max
      → (create_market c (signed creator) bytes s).0 ≡ ok tt
      → let s' = (create_market c (signed creator) bytes s).1 in
        (StorageMap.get s.market_count s'.markets ≡ some (new_market c creator bytes s))
        × (s'.market_count ≡ s.market_count + 1)
        × ((i : ℕ) (k : Market)
            → StorageMap.get i s.markets ≡ some k
            → StorageMap.get i s'.markets ≡ some k)
  create_market_fresh creator bytes s v room h =
      let k' = new_market c creator bytes s in
      rw (create-after creator bytes s h) (
        ground (arith, StorageMap.get-insert s.market_count s.market_count k' s.markets),
        omega arith,
        λ i k found. ground (arith, StorageMap.get-insert s.market_count i k' s.markets, v.fresh i),
      )

  -- Once the counter has reached the largest `u32` it stays there, and a successful creation
  -- overwrites whatever market stood under that identifier, with the votes cast for the old market
  -- left in place.
  pub create_market_overwrites :
      (creator : AccountId) (bytes : List ℕ) (s : Storage L)
      → s.market_count ≡ u32_max
      → (create_market c (signed creator) bytes s).0 ≡ ok tt
      → let s' = (create_market c (signed creator) bytes s).1 in
        (StorageMap.get u32_max s'.markets ≡ some (new_market c creator bytes s))
        × (s'.market_count ≡ u32_max)
        × (s'.votes ≡ s.votes)
  create_market_overwrites creator bytes s full h =
      let k' = new_market c creator bytes s in
      rw (create-after creator bytes s h) (
        ground (arith, StorageMap.get-insert s.market_count u32_max k' s.markets),
        omega arith,
        refl,
      )
