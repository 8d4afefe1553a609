-- ===== src/CustomPallet/Steps.antt =====
-- The calls of the market pallet (pallets/custom-pallet/src/lib.rs) as a step relation: what a
-- call does when it succeeds, beside the passing of blocks and what others do to the ledger.
use subtrate.Base.{
  ℕ, ◌≤◌, ◌≡◌, ◌↔◌, Bool, sym, ◌⊎◌, inl, inr, List, length, ap, arith, ◌≢◌, ◌∙◌, refl,
}
use subtrate.Frame.Dispatch.{
  AccountId, Origin, root, signed, unsigned, ok, transactional-result, transactional-ok,
  transactional-err,
}
use subtrate.Frame.Currency.{Result-cases}
use subtrate.CustomPallet.Types.{Market, Config, Storage, max_metadata_len}
use subtrate.CustomPallet.Calls.{
  PalletCall, create_market_call, vote_call, release_rewards_call, create_meme_call, create_market,
  vote, vote_body, release_rewards, release_rewards_body, create_meme, run_call, dispatch,
}
use subtrate.CustomPallet.Vote.{MayVote, after_vote, MayVote-of_vote, vote-of_MayVote}
use subtrate.CustomPallet.Outcome.{
  after_create, MayRelease, after_release, MayAddMeme, after_meme, create_market-of_le,
  le-of_create_market, release-of_MayRelease, MayRelease-of_release, create_meme-of_MayAddMeme,
  MayAddMeme-of_create_meme,
}

module _ {L : Type 0} (c : Config L) where
  -- One successful call, by the account that signed it.
  pub data CallStep (who : AccountId) (s : Storage L) : Storage L → Type 0 where
    creates :
        (bytes : List ℕ)
        → length bytes ≤ max_metadata_len
        → CallStep who s (after_create c who bytes s)
    votes_in :
        (m : ℕ) (y : Bool) (k : Market)
        → MayVote c who m s k
        → CallStep who s (after_vote c who m y s k)
    releases : (m : ℕ) (k : Market) → MayRelease c m s k → CallStep who s (after_release c m s k)
    adds_meme :
        (m : ℕ) (cid : List ℕ) (k : Market)
        → MayAddMeme c m cid s k
        → CallStep who s (after_meme c who m cid s k)

  -- What a call whose guards hold would leave behind, by the call and the origin.
  abbrev pub Accepts : Origin → PalletCall → Storage L → Type 0
  Accepts root call s = ⊥
  Accepts unsigned call s = ⊥
  Accepts (signed who) (create_market_call bytes) s = length bytes ≤ max_metadata_len
  Accepts (signed who) (vote_call m y) s = (k : Market) × MayVote c who m s k
  Accepts (signed who) (release_rewards_call m) s = (k : Market) × MayRelease c m s k
  Accepts (signed who) (create_meme_call m cid) s = (k : Market) × MayAddMeme c m cid s k

  -- The storage after an accepted call, and the step that led there.
  accepted :
      (o : Origin) (call : PalletCall) (s : Storage L)
      → Accepts o call s
      → (t : Storage L) × (run_call c o call s ≡ (ok tt, t))
        × (who : AccountId) × (o ≡ signed who)
        × CallStep who s t
  unfolding run_call
  accepted root call s h = absurd h
  accepted unsigned call s h = absurd h
  accepted (signed who) (create_market_call bytes) s h =
      (after_create c who bytes s, create_market-of_le c who bytes s h, who, refl, creates bytes h)
  accepted (signed who) (vote_call m y) s (k, h) =
      (after_vote c who m y s k, vote-of_MayVote c who m y s k h, who, refl, votes_in m y k h)
  accepted (signed who) (release_rewards_call m) s (k, h) =
      (after_release c m s k, release-of_MayRelease c who m s k h, who, refl, releases m k h)
  accepted (signed who) (create_meme_call m cid) s (k, h) = (
    after_meme c who m cid s k,
    create_meme-of_MayAddMeme c who m cid s k h,
    who,
    refl,
    adds_meme m cid k h,
  )

  -- No call takes an origin that is not signed.
  unsigned_refused :
      (o : Origin) (call : PalletCall) (s : Storage L)
      → (o ≡ root) ⊎ (o ≡ unsigned)
      → (run_call c o call s).0 ≢ ok tt
  unfolding run_call create_market vote vote_body release_rewards release_rewards_body create_meme
  unsigned_refused o (create_market_call bytes) s h = ground arith
  unsigned_refused o (vote_call m y) s h = ground arith
  unsigned_refused o (release_rewards_call m) s h = ground arith
  unsigned_refused o (create_meme_call m cid) s h = ground arith

  Accepts-of_run_call :
      (o : Origin) (call : PalletCall) (s : Storage L)
      → (run_call c o call s).0 ≡ ok tt
      → Accepts o call s
  unfolding run_call
  Accepts-of_run_call root call s h = unsigned_refused root call s (inl refl) h
  Accepts-of_run_call unsigned call s h = unsigned_refused unsigned call s (inr refl) h
  Accepts-of_run_call (signed who) (create_market_call bytes) s h =
      le-of_create_market c who bytes s h
  Accepts-of_run_call (signed who) (vote_call m y) s h = MayVote-of_vote c who m y s h
  Accepts-of_run_call (signed who) (release_rewards_call m) s h = MayRelease-of_release c who m s h
  Accepts-of_run_call (signed who) (create_meme_call m cid) s h =
      MayAddMeme-of_create_meme c who m cid s h

  -- A dispatched call succeeds exactly when its origin is signed and its guards hold.
  pub dispatch-ok_iff :
      (o : Origin) (call : PalletCall) (s : Storage L)
      → ((dispatch c o call s).0 ≡ ok tt) ↔ Accepts o call s
  unfolding dispatch
  dispatch-ok_iff o call s = (
    λ h. Accepts-of_run_call o call s (sym (transactional-result (run_call c o call) s) ∙ h),
    λ h. transactional-result (run_call c o call) s ∙ ap (λ r. r.0) (accepted o call s h).1,
  )

  -- A dispatched call is one of the four steps, by the account that signed it, if it succeeds, and
  -- changes nothing if it fails.
  pub dispatch-CallStep :
      (o : Origin) (call : PalletCall) (s : Storage L)
      → (((dispatch c o call s).0 ≡ ok tt)
          × (who : AccountId) × (o ≡ signed who)
          × CallStep who s (dispatch c o call s).1)
        ⊎ ((dispatch c o call s).1 ≡ s)
  unfolding dispatch
  dispatch-CallStep o call s = elim (Result-cases (run_call c o call s).0) [
    | inl fine ↦
        let (t, e, who, by, st) = accepted o call s (Accepts-of_run_call o call s fine) in
        let whole = transactional-ok (run_call c o call) s tt t e in
        inl (ap (λ r. r.0) whole, who, by, rw whole st)
    | inr (e, failed) ↦ inr (
        transactional-err (run_call c o call) s e
          (transactional-result (run_call c o call) s ∙ failed))
  ]
