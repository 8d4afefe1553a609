-- ===== src/CustomPallet/Examples.antt =====
-- The theorems on orders of calls and on blocks (pallets/custom-pallet/src/lib.rs) at the history
-- of the tests.
use subtrate.Base.{ℕ, ◌+◌, ◌≤◌, ◌<◌, ◌≡◌, ◌↔◌, refl, true, false, arith, max, u32_max}
use subtrate.Frame.Dispatch.{signed, ok}
use subtrate.CustomPallet.Calls.{vote, release_rewards}
use subtrate.CustomPallet.Reach.{run}
use subtrate.CustomPallet.Interleaving.{SameView, votes_commute}
use subtrate.CustomPallet.Liveness.{blocks, release_eventually}
use subtrate.CustomPallet.Token.{token-IsCurrency}
use subtrate.CustomPallet.Tests.{config, opened, voted, due, evaluation}

votes_commute_example :
    SameView config
      (vote config (signed 2) 0 false (vote config (signed 1) 0 true opened).1).1
      (vote config (signed 1) 0 true (vote config (signed 2) 0 false opened).1).1
unfolding evaluation
votes_commute_example =
    votes_commute config token-IsCurrency 1 2 0 0 true false opened (omega arith) (omega arith)
      (omega arith) refl refl refl refl

release_eventually_example :
    (n : ℕ) × ((release_rewards config (signed 5) 0 (run config (blocks config n) voted)).0 ≡ ok tt)
    × ((run config (blocks config n) voted).block_number ≤ max voted.block_number 12)
    × ((run config (blocks config n) voted).block_number ≤ u32_max)
    × ((i : ℕ)
        → ((release_rewards config (signed 5) 0 (run config (blocks config i) voted)).0 ≡ ok tt)
          ↔ (due.end_block < voted.block_number + i))
unfolding evaluation
release_eventually_example =
    release_eventually config 5 0 voted due refl refl (omega arith) (omega arith)
