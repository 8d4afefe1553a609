-- ===== src/Template/Benchmarks.antt =====
-- The tests and the benchmarks of the template pallet (pallets/template/src/tests.rs,
-- benchmarking.rs and mock.rs) with their assertions.
use subtrate.Base.{ℕ, ◌≡◌, refl, Option, none, some, []}
use mathlib.Core.Option
use subtrate.Frame.Dispatch.{AccountId, ok, err, signed, pallet_error}
use subtrate.Template.Types.{CompositeStruct, Storage, none_value}
use subtrate.Template.Calls.{do_something, cause_error}

-- The genesis of the mock runtime, whose pallets have none of their own.
abbrev pub new_test_ext : Storage
new_test_ext = record { something = none; events = [] }

-- The number in storage, `Something::<T>::get().map(|v| v.block_number)`.
abbrev pub stored_number : Storage → Option ℕ
stored_number s = Option.map (λ (v : CompositeStruct). v.block_number) s.something

-- The extrinsic succeeds, and the assertion holds after it.
abbrev pub BenchmarkDoSomething : AccountId → Storage → Type 0
BenchmarkDoSomething caller s =
    let (r, t) = do_something (signed caller) 100 s in (r ≡ ok tt) × (stored_number t ≡ some 100)

abbrev pub BenchmarkCauseError : AccountId → Storage → Type 0
BenchmarkCauseError caller s =
    let set_up : Storage = record s { something = some (record { block_number = 100 }) } in
    let (r, t) = cause_error (signed caller) set_up in (r ≡ ok tt) × (stored_number t ≡ some 101)

abbrev pub ItWorksForDefaultValue : Type 0
ItWorksForDefaultValue =
    let (r, t) = do_something (signed 1) 42 new_test_ext in
    (r ≡ ok tt) × (stored_number t ≡ some 42)

-- `assert_noop!`: the error, and the storage as it was.
abbrev pub CorrectErrorForNoneValue : Type 0
CorrectErrorForNoneValue =
    cause_error (signed 1) new_test_ext ≡ (err (pallet_error none_value), new_test_ext)

-- Both benchmarks run through with their assertions, whoever calls and whatever is in storage.
pub benchmarks_hold :
    (caller : AccountId) (s : Storage)
    → BenchmarkDoSomething caller s × BenchmarkCauseError caller s
unfolding do_something cause_error
benchmarks_hold caller s = ((refl, refl), (refl, refl))

tests_hold : ItWorksForDefaultValue × CorrectErrorForNoneValue
unfolding do_something cause_error
tests_hold = ((refl, refl), refl)
