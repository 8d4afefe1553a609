-- ===== src/Runtime/Benchmarks.antt =====
-- The benchmarks of the runtime (`define_benchmarks!` of runtime/src/benchmarks.rs), each with the
-- pallet that it measures.
use Prim.Native.String.{String}
use subtrate.Base.{List, [], ◌∷◌}
use subtrate.Runtime.Pallets.{
  Pallet, system, balances, session, timestamp, message_queue, sudo, collator_selection,
  parachain_system, xcmp_queue,
}

abbrev pub benchmarks : List (String × Pallet)
benchmarks =
    ("frame_system", system)
    ∷ ("pallet_balances", balances)
    ∷ ("pallet_session", session)
    ∷ ("pallet_timestamp", timestamp)
    ∷ ("pallet_message_queue", message_queue)
    ∷ ("pallet_sudo", sudo)
    ∷ ("pallet_collator_selection", collator_selection)
    ∷ ("cumulus_pallet_parachain_system", parachain_system)
    ∷ ("cumulus_pallet_xcmp_queue", xcmp_queue)
    ∷ []
