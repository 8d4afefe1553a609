-- ===== src/CustomPallet/Witnesses.antt =====
-- The theorems on the market pallet (pallets/custom-pallet/src/lib.rs) at the history of the tests.
use subtrate.Base.{◌≡◌, refl, ◌≢◌, ◌↔◌, inr, true, false, some, [], ◌∷◌, arith, u32_max}
use mathlib.Core.Option
use mathlib.Core.List.Perm
use subtrate.Frame.Dispatch.{signed, ok, err, pallet_error}
use subtrate.Frame.StorageMap
use subtrate.Frame.StorageDoubleMap
use subtrate.CustomPallet.Types.{Storage, already_voted}
use subtrate.CustomPallet.Calls.{
  vote_call, release_rewards_call, dispatch, call_body, create_market, vote, release_rewards,
  create_meme, account_id,
}
use subtrate.CustomPallet.Reach.{block, run, genesis, run-IsValid}
use subtrate.CustomPallet.Invariant.{IsValid}
use subtrate.CustomPallet.Typed.{IsTyped, run-IsTyped}
use subtrate.CustomPallet.Events.{IsTold, run-IsTold}
use subtrate.CustomPallet.Outcome.{new_market}
use subtrate.CustomPallet.Steps.{Accepts, dispatch-ok_iff}
use subtrate.CustomPallet.Refusals.{again}
use subtrate.CustomPallet.Refusals.Errors.{dispatch-err_iff}
use subtrate.CustomPallet.Atomic.{call_body-error_unchanged}
use subtrate.CustomPallet.Finality.{closed, vote_once, release_final}
use subtrate.CustomPallet.Payout.{Spends}
use subtrate.CustomPallet.Release.{release-Spends}
use subtrate.CustomPallet.Solvency.{IsSolvent, IsSound}
use subtrate.CustomPallet.SolventRuns.{run-IsSolvent}
use subtrate.CustomPallet.FullPay.{CanPay}
use subtrate.CustomPallet.Board.{tally}
use subtrate.CustomPallet.Board.Refines.{shown, ruled, dispatch-ruled}
use subtrate.CustomPallet.Board.Paid.{release_pays_ballot}
use subtrate.CustomPallet.Identifiers.{create_market_overwrites}
use subtrate.CustomPallet.Token.{Balances, token-IsCurrency}
use subtrate.CustomPallet.Tests.{config, hundred, votes_cast, voted, ripe, opened, due, evaluation}

config-IsSound : IsSound config
config-IsSound = record {
  share = omega arith;
  viable = inr (omega arith);
  representable = omega arith;
  order = λ xs. Perm.refl xs;
}

config-CanPay : CanPay config
unfolding account_id
config-CanPay to v l h alive = ground arith

genesis-IsSolvent : IsSolvent config (genesis config 10 hundred)
genesis-IsSolvent = record { covered = omega arith; whole = tt }

run-IsValid_example : IsValid config voted
unfolding evaluation
run-IsValid_example = run-IsValid config 10 hundred votes_cast (omega arith)

run-IsTyped_example : IsTyped voted
unfolding evaluation
run-IsTyped_example = run-IsTyped config 10 hundred votes_cast

run-IsTold_example : IsTold config voted
unfolding evaluation
run-IsTold_example = run-IsTold config 10 hundred votes_cast

abbrev none_left : Storage Balances
none_left = genesis config 10 hundred

none_left-IsValid : IsValid config none_left
unfolding evaluation
none_left-IsValid = run-IsValid config 10 hundred [] (omega arith)

ripe-IsValid : IsValid config ripe
unfolding evaluation
ripe-IsValid = record { markets_ok = voted-IsValid.markets_ok; fresh = voted-IsValid.fresh }
  where
    voted-IsValid : IsValid config voted
    voted-IsValid = run-IsValid config 10 hundred votes_cast (omega arith)

run-IsSolvent_example : IsSolvent config voted
unfolding evaluation
run-IsSolvent_example =
    run-IsSolvent config token-IsCurrency config-IsSound votes_cast none_left none_left-IsValid
      genesis-IsSolvent (ground arith) (omega arith) (omega arith)

release-Spends_example :
    Spends config 120 ripe.ledger (release_rewards config (signed 3) 0 ripe).1.ledger
unfolding evaluation
release-Spends_example =
    release-Spends config token-IsCurrency 3 0 ripe due (omega arith) (λ xs. Perm.refl xs)
      ripe-IsValid (omega arith) (omega arith) refl refl

release_pays_ballot_example : (release_rewards config (signed 3) 0 ripe).1.ledger 1 ≡ 117
unfolding evaluation tally
release_pays_ballot_example =
    release_pays_ballot config token-IsCurrency config-CanPay 3 0 1 ripe due (omega arith)
      (omega arith) (omega arith) (λ xs. Perm.refl xs) ripe-IsValid (omega arith) (omega arith)
      (omega arith) refl (omega arith) (omega arith) refl

dispatch-ruled_example :
    shown config (dispatch config (signed 4) (vote_call 0 true) voted)
    ≡ ruled config 4 (vote_call 0 true) voted
dispatch-ruled_example = dispatch-ruled config 4 (vote_call 0 true) voted

vote_once_example :
    let t = run config (block ∷ block ∷ []) (vote config (signed 1) 0 true opened).1 in
    (StorageDoubleMap.get 0 1 t.votes ≡ some true) × ((vote config (signed 1) 0 false t).0 ≢ ok tt)
unfolding evaluation
vote_once_example = vote_once config 1 0 true false opened (block ∷ block ∷ []) refl

release_final_example :
    let t = run config (block ∷ []) (release_rewards config (signed 3) 0 ripe).1 in
    (StorageMap.get 0 t.markets ≡ some (closed due))
    × ((vote config (signed 4) 0 true t).0 ≢ ok tt)
    × ((release_rewards config (signed 4) 0 t).0 ≢ ok tt)
    × ((create_meme config (signed 4) 0 (1 ∷ []) t).0 ≢ ok tt)
unfolding evaluation
release_final_example =
    release_final config 3 0 4 true (1 ∷ []) ripe (block ∷ []) (omega arith) (omega arith) refl

dispatch-ok_iff_example :
    ((dispatch config (signed 3) (release_rewards_call 0) ripe).0 ≡ ok tt)
    ↔ Accepts config (signed 3) (release_rewards_call 0) ripe
dispatch-ok_iff_example = dispatch-ok_iff config (signed 3) (release_rewards_call 0) ripe

-- Account 2 has voted already.
dispatch-err_iff_example :
    (dispatch config (signed 2) (vote_call 0 false) voted).0 ≡ err (pallet_error already_voted)
unfolding evaluation
dispatch-err_iff_example =
    (dispatch-err_iff config (signed 2) (vote_call 0 false) voted (pallet_error already_voted)).1
      (again 2 0 false true due (refl, refl) (omega arith) refl)

-- Account 2 has voted already.
call_body-error_unchanged_example :
    (call_body config (signed 2) (vote_call 0 false) voted).1 ≡ voted
unfolding evaluation
call_body-error_unchanged_example =
    call_body-error_unchanged config token-IsCurrency (signed 2) voted (vote_call 0 false)
      (pallet_error already_voted) refl

-- The same storage with the identifiers used up.
abbrev last : Storage Balances
last = record opened { market_count = u32_max }

create_market_overwrites_example :
    let s' = (create_market config (signed 4) (6 ∷ []) last).1 in
    (StorageMap.get u32_max s'.markets ≡ some (new_market config 4 (6 ∷ []) last))
    × (s'.market_count ≡ u32_max)
    × (s'.votes ≡ last.votes)
unfolding evaluation
create_market_overwrites_example = create_market_overwrites config 4 (6 ∷ []) last refl refl
