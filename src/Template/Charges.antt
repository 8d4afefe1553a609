-- ===== src/Template/Charges.antt =====
-- What the calls of the template pallet are charged (pallets/template/src/lib.rs) against what the
-- benchmark measured (pallets/template/src/weights.rs).
use subtrate.Base.{◌+◌, ◌≤◌, ◌<◌, arith, u64_max}
use subtrate.Frame.Weight.{WeightApi, IsWeightApi, DbWeight}
use subtrate.Template.Calls.{PalletCall, do_something_call, cause_error_call}
use subtrate.Template.Weights.{substrate_weight, declared_weight, measured_weight}

module _ {W : Type 0} (w : WeightApi W) (laws : IsWeightApi w) where
  -- Every call declares a smaller execution time than the configured `WeightInfo` measured for it,
  -- with any database weight whose read and write add up to less than the saturation of `u64`.
  pub declared-lt-measured :
      (db : DbWeight W) (call : PalletCall)
      → w.ref_time (db.reads 1) + w.ref_time (db.writes 1) + 9000000 ≤ u64_max
      → w.ref_time (declared_weight w db call)
        < w.ref_time (measured_weight w (substrate_weight w db) call)
  unfolding declared_weight measured_weight substrate_weight
  declared-lt-measured db (do_something_call bn) h =
      simp (laws.ref_time-add, laws.ref_time-from_parts) (omega arith)
  declared-lt-measured db cause_error_call h =
      simp (laws.ref_time-add, laws.ref_time-from_parts) (omega arith)
