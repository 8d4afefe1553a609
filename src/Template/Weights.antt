-- ===== src/Template/Weights.antt =====
-- The weights of the template pallet: those declared at the calls (pallets/template/src/lib.rs)
-- and those that the benchmark measured (pallets/template/src/weights.rs).
use subtrate.Frame.Weight.{WeightApi, DbWeight}
use subtrate.Template.Calls.{PalletCall, do_something_call, cause_error_call}

-- The trait `WeightInfo`.
pub record WeightInfo (W : Type 0) : Type 0 where
  pub do_something : W
  pub cause_error : W

module _ {W : Type 0} (w : WeightApi W) where
  -- `impl WeightInfo for SubstrateWeight<T>`, by the database weight of the runtime `T`.
  unfoldable pub substrate_weight : DbWeight W → WeightInfo W
  substrate_weight db = record {
    do_something = w.add (w.from_parts 9000000 0) (db.writes 1);
    cause_error = w.add (w.add (w.from_parts 6000000 1489) (db.reads 1)) (db.writes 1);
  }

  -- `impl WeightInfo for ()`, at the constant `RocksDbWeight`.
  unfoldable pub unit_weight : DbWeight W → WeightInfo W
  unit_weight rocks_db_weight = record {
    do_something = w.add (w.from_parts 9000000 0) (rocks_db_weight.writes 1);
    cause_error =
        w.add (w.add (w.from_parts 6000000 1489) (rocks_db_weight.reads 1))
          (rocks_db_weight.writes 1);
  }

  -- The attributes `#[pallet::weight(..)]`; `reads_writes` adds the reads and the writes.
  unfoldable pub declared_weight : DbWeight W → PalletCall → W
  declared_weight db (do_something_call bn) = w.add (w.from_parts 10000 0) (db.writes 1)
  declared_weight db cause_error_call =
      w.add (w.from_parts 10000 0) (w.add (db.reads 1) (db.writes 1))

  -- What `WeightInfo` says of a call.
  unfoldable pub measured_weight : WeightInfo W → PalletCall → W
  measured_weight info (do_something_call bn) = info.do_something
  measured_weight info cause_error_call = info.cause_error
