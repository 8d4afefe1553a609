-- ===== src/CustomPallet/Refusals/Errors.antt =====
-- Every call of the market pallet (pallets/custom-pallet/src/lib.rs) succeeds, or fails for one of
-- the reasons, whose error it returns.
use subtrate.Base.{
  ℕ, ◌≤◌, ◌<◌, ◌≡◌, ◌↔◌, ◌⊎◌, inl, inr, sym, ap, ◌∙◌, refl, Bool, some, List, arith, length,
  Option-cases, Bool-cases, leb,
}
use mathlib.Core.Path.{subst}
use subtrate.Frame.Dispatch.{
  Origin, root, signed, unsigned, DispatchError, bad_origin, ok, err, transactional-result,
}
use subtrate.Frame.Currency.{Result-cases, keep_alive}
use subtrate.Frame.StorageMap
use subtrate.Frame.StorageDoubleMap
use subtrate.CustomPallet.Types.{
  Market, Config, Storage, Error, max_metadata_len, max_cid_len, max_memes,
}
use subtrate.CustomPallet.Vote.{vote-of_MayVote}
use subtrate.CustomPallet.Outcome.{
  create_market-of_le, release-of_MayRelease, create_meme-of_MayAddMeme,
}
use subtrate.CustomPallet.Calls.{
  PalletCall, create_market_call, vote_call, release_rewards_call, create_meme_call, run_call,
  dispatch, account_id,
}
use subtrate.CustomPallet.Refusals.{
  market_of, Active, Refusal, as_root, as_unsigned, long_metadata, missing, closed, late, again,
  unpaid, early, long_cid, full, Refusal-fails,
}

le_or_lt : (a b : ℕ) → (a ≤ b) ⊎ (b < a)
le_or_lt a b = elim (Bool-cases (leb a b)) [
  | inl h ↦ inl (ground arith)
  | inr h ↦ inr (ground arith)
]

module _ {L : Type 0} (c : Config L) where
  -- Either a call succeeds or there is a reason against it.
  abbrev Decided : Origin → PalletCall → Storage L → Type 0
  Decided o call s =
      ((run_call c o call s).0 ≡ ok tt) ⊎ ((e : DispatchError Error) × Refusal c s o call e)

  -- A call about a market goes on only in one that is active.
  in_active :
      (who m : ℕ) (call : PalletCall) (s : Storage L)
      → market_of call ≡ some m
      → ((k : Market) → Active c m s k → Decided (signed who) call s)
      → Decided (signed who) call s
  in_active who m call s about go = elim (Option-cases (StorageMap.get m s.markets)) [
    | inl none_there ↦ inr (_, missing who m call about none_there)
    | inr (k, there) ↦ elim (Bool-cases k.is_active) [
      | inl active ↦ go k (there, active)
      | inr shut ↦ inr (_, closed who m call k about there shut)
    ]
  ]

  vote-Decided : (who m : ℕ) (y : Bool) (s : Storage L) → Decided (signed who) (vote_call m y) s
  unfolding run_call
  vote-Decided who m y s = in_active who m (vote_call m y) s refl (λ k active.
      elim (le_or_lt s.block_number k.end_block) [
        | inr over ↦ inr (_, late who m y k active over)
        | inl running ↦ elim (Option-cases (StorageDoubleMap.get m who s.votes)) [
          | inr (before, voted) ↦ inr (_, again who m y before k active running voted)
          | inl fresh ↦
              elim (Result-cases
                (c.currency.transfer who (account_id c) c.vote_cost keep_alive s.ledger).0) [
                  | inr (e, failed) ↦ inr (_, unpaid who m e y k active running fresh failed)
                  | inl paid ↦ inl (
                      ap (λ r. r.0)
                        (vote-of_MayVote c who m y s k (active.0, active.1, running, fresh, paid)))
                ]
        ]
      ])

  release_rewards-Decided :
      (who m : ℕ) (s : Storage L) → Decided (signed who) (release_rewards_call m) s
  unfolding run_call
  release_rewards-Decided who m s = in_active who m (release_rewards_call m) s refl (λ k active.
      elim (le_or_lt s.block_number k.end_block) [
        | inl running ↦ inr (_, early who m k active running)
        | inr over ↦
            inl (ap (λ r. r.0) (release-of_MayRelease c who m s k (active.0, active.1, over)))
      ])

  create_meme-Decided :
      (who m : ℕ) (cid : List ℕ) (s : Storage L) → Decided (signed who) (create_meme_call m cid) s
  unfolding run_call
  create_meme-Decided who m cid s = in_active who m (create_meme_call m cid) s refl (λ k active.
      elim (le_or_lt (length cid) max_cid_len) [
        | inr long ↦ inr (_, long_cid who m cid k active long)
        | inl fits ↦ elim (le_or_lt max_memes (length k.memes)) [
          | inl none_left ↦ inr (_, full who m cid k active fits none_left)
          | inr room ↦ inl (
              ap (λ r. r.0)
                (create_meme-of_MayAddMeme c who m cid s k (active.0, active.1, fits, room)))
        ]
      ])

  decided : (o : Origin) (call : PalletCall) (s : Storage L) → Decided o call s
  unfolding run_call
  decided root call s = inr (bad_origin, as_root call)
  decided unsigned call s = inr (bad_origin, as_unsigned call)
  decided (signed who) (create_market_call bytes) s =
      elim (le_or_lt (length bytes) max_metadata_len) [
        | inl fits ↦ inl (ap (λ r. r.0) (create_market-of_le c who bytes s fits))
        | inr long ↦ inr (_, long_metadata who bytes long)
      ]
  decided (signed who) (vote_call m y) s = vote-Decided who m y s
  decided (signed who) (release_rewards_call m) s = release_rewards-Decided who m s
  decided (signed who) (create_meme_call m cid) s = create_meme-Decided who m cid s

  -- A dispatched call fails with an error exactly for a reason of that error: its origin is not
  -- signed; or it creates a market with metadata that are too long; or its market does not exist,
  -- or else is not active; or else, for a vote, the end block has passed, which is told as a market
  -- that is not active, or else the account has a vote there, or else the currency refuses the cost
  -- with that error; for a release, the end block has not passed; for a meme, the content
  -- identifier is too long, or else the list is full. `InvalidVoteCost` is never an error.
  pub dispatch-err_iff :
      (o : Origin) (call : PalletCall) (s : Storage L) (e : DispatchError Error)
      → ((dispatch c o call s).0 ≡ err e) ↔ Refusal c s o call e
  unfolding dispatch
  dispatch-err_iff o call s e =
      let same = transactional-result (run_call c o call) s in
      (
        λ h. elim (decided o call s) [
          | inl fine ↦ absurd (cc)
          | inr (e', why) ↦
              let fails = sym (Refusal-fails c s o call e' why) ∙ sym same ∙ h in
              let agree : e' ≡ e = cc in subst (Refusal c s o call) agree why
        ],
        λ why. same ∙ Refusal-fails c s o call e why,
      )
