-- ===== src/CustomPallet/Liveness.antt =====
-- Blocks alone bring every market to its release (`release_rewards` of
-- pallets/custom-pallet/src/lib.rs).
use subtrate.Base.{
  ℕ, zero, suc, ◌+◌, ◌-◌, ◌≤◌, ◌<◌, ◌≡◌, sym, ap, ◌∙◌, ◌↔◌, true, some, List, [], ◌∷◌, arith, max,
  u32_max,
}
use subtrate.Frame.Dispatch.{signed, ok}
use subtrate.Frame.StorageMap
use subtrate.CustomPallet.Types.{Market, Config, Storage}
use subtrate.CustomPallet.Calls.{release_rewards}
use subtrate.CustomPallet.Outcome.{release-of_MayRelease, MayRelease-of_release}
use subtrate.CustomPallet.Reach.{Happening, block, happen, run}

module _ {L : Type 0} (c : Config L) where
  abbrev pub blocks : ℕ → List (Happening c)
  blocks zero = []
  blocks (suc n) = block ∷ blocks n

  run-blocks :
      (n : ℕ) (s : Storage L) → run c (blocks n) s ≡ record s { block_number = s.block_number + n }
  unfolding run happen
  run-blocks zero s = ap (λ b. record s { block_number = b }) (omega arith)
  run-blocks (suc n) s =
      run-blocks n (record s { block_number = s.block_number + 1 })
      ∙ ap (λ b. record s { block_number = b }) (omega arith)

  release_iff :
      (who m n : ℕ) (s : Storage L) (k : Market)
      → StorageMap.get m s.markets ≡ some k
      → k.is_active ≡ true
      → ((release_rewards c (signed who) m (run c (blocks n) s)).0 ≡ ok tt)
        ↔ (k.end_block < s.block_number + n)
  release_iff who m n s k found active = rw (run-blocks n s) (
    λ h.
        let (k', may) = MayRelease-of_release c who m _ h in
        let same = sym found ∙ may.0 in ground arith,
    λ past. ap (λ r. r.0) (release-of_MayRelease c who m _ k (found, active, past)),
  )

  -- An active market can be released by anybody after enough blocks: if nothing else happens, a
  -- release succeeds after some number of blocks, none later than the one after the end block, so
  -- that the block number stays a `u32` unless the market ends with the last `u32`; and it
  -- succeeds after a number of blocks exactly when the end block has passed.
  pub release_eventually :
      (who m : ℕ) (s : Storage L) (k : Market)
      → StorageMap.get m s.markets ≡ some k
      → k.is_active ≡ true
      → k.end_block < u32_max
      → s.block_number ≤ u32_max
      → (n : ℕ) × ((release_rewards c (signed who) m (run c (blocks n) s)).0 ≡ ok tt)
        × ((run c (blocks n) s).block_number ≤ max s.block_number (k.end_block + 1))
        × ((run c (blocks n) s).block_number ≤ u32_max)
        × ((i : ℕ)
            → ((release_rewards c (signed who) m (run c (blocks i) s)).0 ≡ ok tt)
              ↔ (k.end_block < s.block_number + i))
  release_eventually who m s k found active room fits =
      let n : ℕ = k.end_block + 1 - s.block_number in
      (
        n,
        (release_iff who m n s k found active).1 (omega arith),
        rw (run-blocks n s) (ground arith),
        rw (run-blocks n s) (ground arith),
        λ i. release_iff who m i s k found active,
      )
