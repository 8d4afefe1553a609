-- ===== src/Counter/Witnesses.antt =====
-- The theorems on the counter pallet (pallets/custom-pallet/src/custom.rs) at small inputs.
use subtrate.Base.{◌≡◌, refl, List, [], ◌∷◌}
use subtrate.Frame.Dispatch.{Origin, root, signed}
use subtrate.Frame.StorageMap
use subtrate.Counter.Types.{Config}
use subtrate.Counter.Calls.{
  PalletCall, set_counter_value_call, increment_call, decrement_call, set_counter_value, increment,
  decrement, run_call, dispatch,
}
use subtrate.Counter.Outcome.{value}
use subtrate.Counter.Runs.{run, successes}
use subtrate.Counter.Events.{IsRecorded, empty, run-IsRecorded}

abbrev config : Config
config = record { counter_max_value = 10 }

abbrev calls : List (Origin × PalletCall)
calls =
    (signed 1, increment_call 8)
    ∷ (signed 1, increment_call 3)
    ∷ (signed 1, decrement_call 2)
    ∷ (signed 2, set_counter_value_call 1)
    ∷ (root, set_counter_value_call 9)
    ∷ []

evaluation : Unit {0}
unfolding run successes dispatch run_call set_counter_value increment decrement StorageMap.get
    StorageMap.insert
evaluation = tt

run-value : value (run config calls empty) ≡ 9
unfolding evaluation
run-value = refl

run-IsRecorded_example : IsRecorded config (run config calls empty)
run-IsRecorded_example = run-IsRecorded config calls
