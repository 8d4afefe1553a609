-- ===== src/CustomPallet/Refusals.antt =====
-- When a call of the market pallet (pallets/custom-pallet/src/lib.rs) fails, and with which error.
pub mod Errors
use subtrate.Base.{
  [], ◌∷◌, ℕ, ◌≤◌, ◌<◌, ◌≡◌, ◌≢◌, ◌↔◌, ◌⊎◌, inl, inr, sym, ap, ◌∙◌, refl, Bool, true, false, Option,
  none, some, List, arith, length, length-append, Option-cases, Bool-cases, leb, ltb,
}
use mathlib.Core.Path.{subst}
use subtrate.Frame.Dispatch.{
  AccountId, Origin, root, signed, unsigned, DispatchError, bad_origin, pallet_error,
  currency_error, ok, err, transactional-result,
}
use subtrate.Frame.Currency.{Result-cases, keep_alive}
use subtrate.Frame.StorageMap
use subtrate.Frame.StorageDoubleMap
use subtrate.CustomPallet.Types.{
  Market, Config, Storage, Error, market_does_not_exist, market_not_active, market_still_active,
  already_voted, metadata_too_long, meme_list_full, invalid_cid, max_metadata_len, max_cid_len,
  max_memes,
}
use subtrate.CustomPallet.Vote.{vote-of_MayVote}
use subtrate.CustomPallet.Outcome.{
  meme_by, create_market-of_le, release-of_MayRelease, create_meme-of_MayAddMeme,
}
use subtrate.CustomPallet.Calls.{
  PalletCall, create_market_call, vote_call, release_rewards_call, create_meme_call, create_market,
  vote, vote_body, release_rewards, release_rewards_body, create_meme, run_call, dispatch,
  account_id,
}

-- The market that a call is about.
abbrev pub market_of : PalletCall → Option ℕ
market_of (create_market_call bytes) = none
market_of (vote_call m y) = some m
market_of (release_rewards_call m) = some m
market_of (create_meme_call m cid) = some m

module _ {L : Type 0} (c : Config L) where
  abbrev pub Active : ℕ → Storage L → Market → Type 0
  Active m s k = (StorageMap.get m s.markets ≡ some k) × (k.is_active ≡ true)

  -- Why a call fails, and its error.
  pub data Refusal (s : Storage L) : Origin → PalletCall → DispatchError Error → Type 0 where
    as_root : (call : PalletCall) → Refusal s root call bad_origin
    as_unsigned : (call : PalletCall) → Refusal s unsigned call bad_origin
    long_metadata :
        (who : AccountId) (bytes : List ℕ)
        → max_metadata_len < length bytes
        → Refusal s (signed who) (create_market_call bytes) (pallet_error metadata_too_long)
    missing :
        (who m : ℕ) (call : PalletCall)
        → market_of call ≡ some m
        → StorageMap.get m s.markets ≡ none
        → Refusal s (signed who) call (pallet_error market_does_not_exist)
    closed :
        (who m : ℕ) (call : PalletCall) (k : Market)
        → market_of call ≡ some m
        → StorageMap.get m s.markets ≡ some k
        → k.is_active ≡ false
        → Refusal s (signed who) call (pallet_error market_not_active)
    late :
        (who m : ℕ) (y : Bool) (k : Market)
        → Active m s k
        → k.end_block < s.block_number
        → Refusal s (signed who) (vote_call m y) (pallet_error market_not_active)
    again :
        (who m : ℕ) (y before : Bool) (k : Market)
        → Active m s k
        → s.block_number ≤ k.end_block
        → StorageDoubleMap.get m who s.votes ≡ some before
        → Refusal s (signed who) (vote_call m y) (pallet_error already_voted)
    unpaid :
        (who m e : ℕ) (y : Bool) (k : Market)
        → Active m s k
        → s.block_number ≤ k.end_block
        → StorageDoubleMap.get m who s.votes ≡ none
        → (c.currency.transfer who (account_id c) c.vote_cost keep_alive s.ledger).0 ≡ err e
        → Refusal s (signed who) (vote_call m y) (currency_error e)
    early :
        (who m : ℕ) (k : Market)
        → Active m s k
        → s.block_number ≤ k.end_block
        → Refusal s (signed who) (release_rewards_call m) (pallet_error market_still_active)
    long_cid :
        (who m : ℕ) (cid : List ℕ) (k : Market)
        → Active m s k
        → max_cid_len < length cid
        → Refusal s (signed who) (create_meme_call m cid) (pallet_error invalid_cid)
    full :
        (who m : ℕ) (cid : List ℕ) (k : Market)
        → Active m s k
        → length cid ≤ max_cid_len
        → max_memes ≤ length k.memes
        → Refusal s (signed who) (create_meme_call m cid) (pallet_error meme_list_full)

  pub Refusal-fails :
      (s : Storage L) (o : Origin) (call : PalletCall) (e : DispatchError Error)
      → Refusal s o call e
      → (run_call c o call s).0 ≡ err e
  unfolding run_call create_market vote vote_body release_rewards release_rewards_body create_meme
      StorageDoubleMap.contains_key
  Refusal-fails s root (create_market_call bytes) e (as_root call) = ground arith
  Refusal-fails s root (vote_call m y) e (as_root call) = ground arith
  Refusal-fails s root (release_rewards_call m) e (as_root call) = ground arith
  Refusal-fails s root (create_meme_call m cid) e (as_root call) = ground arith
  Refusal-fails s unsigned (create_market_call bytes) e (as_unsigned call) = ground arith
  Refusal-fails s unsigned (vote_call m y) e (as_unsigned call) = ground arith
  Refusal-fails s unsigned (release_rewards_call m) e (as_unsigned call) = ground arith
  Refusal-fails s unsigned (create_meme_call m cid) e (as_unsigned call) = ground arith
  Refusal-fails s o call e (long_metadata who bytes h) = ground arith
  Refusal-fails s o (create_market_call bytes) e (missing who m call about h) = absurd (cc)
  Refusal-fails s o (vote_call n y) e (missing who m call about h) = ground arith
  Refusal-fails s o (release_rewards_call n) e (missing who m call about h) = ground arith
  Refusal-fails s o (create_meme_call n cid) e (missing who m call about h) = ground arith
  Refusal-fails s o (create_market_call bytes) e (closed who m call k about h shut) = absurd (cc)
  Refusal-fails s o (vote_call n y) e (closed who m call k about h shut) = ground arith
  Refusal-fails s o (release_rewards_call n) e (closed who m call k about h shut) = ground arith
  Refusal-fails s o (create_meme_call n cid) e (closed who m call k about h shut) = ground arith
  Refusal-fails s o call e (late who m y k (h, active) over) = ground arith
  Refusal-fails s o call e (again who m y before k (h, active) running voted) = ground arith
  Refusal-fails s o call e (unpaid who m n y k (h, active) running fresh failed) = ground arith
  Refusal-fails s o call e (early who m k (h, active) running) = ground arith
  Refusal-fails s o call e (long_cid who m cid k (h, active) long) = ground arith
  Refusal-fails s o call e (full who m cid k (h, active) fits none_left) =
      ground (arith, length-append k.memes (meme_by c who m cid ∷ []))
