-- ===== src/Template/Types.antt =====
-- Storage, events and errors of the template pallet (pallets/template/src/lib.rs). Block numbers
-- are `u32`, as the runtime has them.
use subtrate.Base.{ℕ, Option, List, ◌∷◌}
use subtrate.Frame.Dispatch.{AccountId, Action, modify}

pub record CompositeStruct : Type 0 where
  pub block_number : ℕ

pub data Event : Type 0 where
  -- block_number, who
  something_stored : ℕ → AccountId → Event

pub data Error : Type 0 where
  none_value : Error
  storage_overflow : Error

-- The storage item, with the deposited events, newest first.
pub record Storage : Type 0 where
  pub something : Option CompositeStruct
  pub events : List Event

abbrev pub Call : Type 0 → Type 0
Call A = Action Storage Error A

abbrev pub deposit_event : Event → Call (Unit {0})
deposit_event e = modify (λ s. record s { events = e ∷ s.events })
