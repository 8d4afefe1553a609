-- ===== src/Counter/Calls.antt =====
-- The dispatchable calls of the counter pallet (pallets/custom-pallet/src/custom.rs).
use subtrate.Base.{ℕ, some, leb, u32_max, checked_add, checked_sub, unwrap_or}
use subtrate.Frame.Dispatch.{
  AccountId, Origin, gets, modify, ensure, ensure_root, ensure_signed, ok_or, transactional, ◌>>=◌,
  ◌>>◌,
}
use subtrate.Frame.StorageMap
use subtrate.Counter.Types.{
  Config, Call, deposit_event, counter_value_set, counter_incremented, counter_decremented,
  counter_value_exceeds_max, counter_value_below_zero, counter_overflow, user_interaction_overflow,
}

module _ (c : Config) where
  unfoldable pub set_counter_value : Origin → ℕ → Call (Unit {0})
  set_counter_value origin new_value = do
    ensure_root origin
    ensure (leb new_value c.counter_max_value) counter_value_exceeds_max
    modify (λ s. record s { counter_value = some new_value })
    deposit_event (counter_value_set new_value)

  -- The closure that both calls hand to `UserInteractions::try_mutate`.
  unfoldable pub count_interaction : AccountId → Call (Unit {0})
  count_interaction who = do
    interactions ← gets (λ s. StorageMap.get who s.user_interactions)
    new_interactions ←
        ok_or (checked_add u32_max (unwrap_or 0 interactions) 1) user_interaction_overflow
    modify (λ s. record s {
      user_interactions = StorageMap.insert who new_interactions s.user_interactions;
    })

  unfoldable pub increment : Origin → ℕ → Call (Unit {0})
  unfolding count_interaction
  increment origin amount_to_increment = do
    who ← ensure_signed origin
    current_value ← gets (λ s. unwrap_or 0 s.counter_value)
    new_value ← ok_or (checked_add u32_max current_value amount_to_increment) counter_overflow
    ensure (leb new_value c.counter_max_value) counter_value_exceeds_max
    modify (λ s. record s { counter_value = some new_value })
    count_interaction who
    deposit_event (counter_incremented new_value who amount_to_increment)

  unfoldable pub decrement : Origin → ℕ → Call (Unit {0})
  unfolding count_interaction
  decrement origin amount_to_decrement = do
    who ← ensure_signed origin
    current_value ← gets (λ s. unwrap_or 0 s.counter_value)
    new_value ← ok_or (checked_sub current_value amount_to_decrement) counter_value_below_zero
    modify (λ s. record s { counter_value = some new_value })
    count_interaction who
    deposit_event (counter_decremented new_value who amount_to_decrement)

-- The calls of `#[pallet::call]`, with their arguments.
pub data PalletCall : Type 0 where
  set_counter_value_call : ℕ → PalletCall
  increment_call : ℕ → PalletCall
  decrement_call : ℕ → PalletCall

unfoldable pub run_call : Config → Origin → PalletCall → Call (Unit {0})
run_call c origin (set_counter_value_call new_value) = set_counter_value c origin new_value
run_call c origin (increment_call amount) = increment c origin amount
run_call c origin (decrement_call amount) = decrement c origin amount

-- FRAME runs every call in a storage layer, which it drops if the call fails.
unfoldable pub dispatch : Config → Origin → PalletCall → Call (Unit {0})
dispatch c origin call = transactional (run_call c origin call)
