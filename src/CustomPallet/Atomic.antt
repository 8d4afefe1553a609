-- ===== src/CustomPallet/Atomic.antt =====
-- A failed call of the market pallet changes nothing, also without the rollback: every body makes
-- all of its checks before it writes (pallets/custom-pallet/src/lib.rs).
use subtrate.Base.{ℕ, ◌≡◌, arith, List, Bool}
use subtrate.Frame.Dispatch.{Origin, DispatchError, err}
use subtrate.Frame.Currency.{IsCurrency}
use subtrate.CustomPallet.Types.{Error, Config, Storage}
use subtrate.CustomPallet.Calls.{
  PalletCall, create_market_call, vote_call, release_rewards_call, create_meme_call, create_market,
  vote_body, release_rewards_body, create_meme, call_body,
}

module _ {L : Type 0} (c : Config L) (laws : IsCurrency c.currency) (o : Origin)
    (s : Storage L) where
  create_market_unchanged :
      (bytes : List ℕ) (e : DispatchError Error)
      → (create_market c o bytes s).0 ≡ err e
      → (create_market c o bytes s).1 ≡ s
  unfolding create_market
  create_market_unchanged bytes e h = ground arith

  vote_body_unchanged :
      (m : ℕ) (y : Bool) (e : DispatchError Error)
      → (vote_body c o m y s).0 ≡ err e
      → (vote_body c o m y s).1 ≡ s
  unfolding vote_body
  vote_body_unchanged m y e h = grind (arith, laws.transfer_fails)

  release_rewards_body_unchanged :
      (m : ℕ) (e : DispatchError Error)
      → (release_rewards_body c o m s).0 ≡ err e
      → (release_rewards_body c o m s).1 ≡ s
  unfolding release_rewards_body
  release_rewards_body_unchanged m e h = ground arith

  create_meme_unchanged :
      (m : ℕ) (cid : List ℕ) (e : DispatchError Error)
      → (create_meme c o m cid s).0 ≡ err e
      → (create_meme c o m cid s).1 ≡ s
  unfolding create_meme
  create_meme_unchanged m cid e h = ground arith

  -- A call that fails leaves the storage and the ledger as they were before it, even where its
  -- writes are not rolled back, if a failed transfer of the currency changes nothing.
  pub call_body-error_unchanged :
      (call : PalletCall) (e : DispatchError Error)
      → (call_body c o call s).0 ≡ err e
      → (call_body c o call s).1 ≡ s
  unfolding call_body
  call_body-error_unchanged (create_market_call bytes) e h = create_market_unchanged bytes e h
  call_body-error_unchanged (vote_call m y) e h = vote_body_unchanged m y e h
  call_body-error_unchanged (release_rewards_call m) e h = release_rewards_body_unchanged m e h
  call_body-error_unchanged (create_meme_call m cid) e h = create_meme_unchanged m cid e h
