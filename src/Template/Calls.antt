-- ===== src/Template/Calls.antt =====
-- The dispatchable calls of the template pallet (pallets/template/src/lib.rs).
use subtrate.Base.{ℕ, some, u32_max, checked_add}
use subtrate.Frame.Dispatch.{Origin, gets, modify, ensure_signed, ok_or, transactional, ◌>>=◌, ◌>>◌}
use subtrate.Template.Types.{Call, deposit_event, something_stored, none_value, storage_overflow}

unfoldable pub do_something : Origin → ℕ → Call (Unit {0})
do_something origin bn = do
  who ← ensure_signed origin
  modify (λ s. record s { something = some (record { block_number = bn }) })
  deposit_event (something_stored bn who)

unfoldable pub cause_error : Origin → Call (Unit {0})
cause_error origin = do
  ensure_signed origin
  found ← gets (λ s. s.something)
  old ← ok_or found none_value
  block_number ← ok_or (checked_add u32_max old.block_number 1) storage_overflow
  modify (λ s. record s { something = some (record old { block_number = block_number }) })

-- The calls of `#[pallet::call]`, with their arguments.
pub data PalletCall : Type 0 where
  do_something_call : ℕ → PalletCall
  cause_error_call : PalletCall

unfoldable pub run_call : Origin → PalletCall → Call (Unit {0})
run_call origin (do_something_call bn) = do_something origin bn
run_call origin cause_error_call = cause_error origin

-- FRAME runs every call in a storage layer, which it drops if the call fails.
unfoldable pub dispatch : Origin → PalletCall → Call (Unit {0})
dispatch origin call = transactional (run_call origin call)
