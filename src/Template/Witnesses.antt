-- ===== src/Template/Witnesses.antt =====
-- The theorems on the template pallet (pallets/template/src) at small inputs.
use subtrate.Base.{◌≡◌, ◌≤◌, ◌↔◌, some, none, [], ◌∷◌, arith, u32_max}
use subtrate.Frame.Dispatch.{signed, err, pallet_error}
use subtrate.Template.Types.{Storage, storage_overflow, something_stored}
use subtrate.Template.Calls.{do_something_call, cause_error_call, dispatch}
use subtrate.Template.Laws.{cause_errors, do_something_then_cause_errors}

abbrev empty : Storage
empty = record { something = none; events = [] }

do_something_then_cause_errors_example :
    let t = cause_errors 2 2 (dispatch (signed 1) (do_something_call 4294967293) empty).1 in
    (t.something ≡ some (record { block_number = u32_max }))
    × (t.events ≡ something_stored 4294967293 1 ∷ [])
    × (((dispatch (signed 2) cause_error_call t).0 ≡ err (pallet_error storage_overflow))
        ↔ (u32_max ≤ u32_max))
do_something_then_cause_errors_example =
    do_something_then_cause_errors 1 2 4294967293 2 empty (omega arith)
