-- ===== src/Counter/Types.antt =====
-- Configuration, storage, events and errors of the counter pallet
-- (pallets/custom-pallet/src/custom.rs).
use subtrate.Base.{ℕ, Option, List, ◌∷◌}
use subtrate.Frame.Dispatch.{AccountId, Action, modify}
use subtrate.Frame.StorageMap.{StorageMap}

-- The trait `Config`.
pub record Config : Type 0 where
  pub counter_max_value : ℕ

pub data Event : Type 0 where
  -- counter_value
  counter_value_set : ℕ → Event
  -- counter_value, who, incremented_amount
  counter_incremented : ℕ → AccountId → ℕ → Event
  -- counter_value, who, decremented_amount
  counter_decremented : ℕ → AccountId → ℕ → Event

pub data Error : Type 0 where
  counter_value_exceeds_max : Error
  counter_value_below_zero : Error
  counter_overflow : Error
  user_interaction_overflow : Error

-- The storage items, with the deposited events, newest first.
pub record Storage : Type 0 where
  pub counter_value : Option ℕ
  pub user_interactions : StorageMap ℕ
  pub events : List Event

abbrev pub Call : Type 0 → Type 0
Call A = Action Storage Error A

abbrev pub deposit_event : Event → Call (Unit {0})
deposit_event e = modify (λ s. record s { events = e ∷ s.events })
