-- ===== src/Base/Words.antt =====
-- Rust's arithmetic on unsigned integers of a fixed width, by the largest value `bound` of the
-- type: the saturating and the checked operations of the standard library.
use Prim.Native.Nat.{ℕ, ◌+◌, ◌-◌, ◌*◌, ◌/◌, min}
use mathlib.Core.Option.{Option, none, some}
use subtrate.Base.Tests.{leb, ◌==◌, if◌then◌else◌}

-- `u32::MAX`
abbrev pub u32_max : ℕ
u32_max = 4294967295

-- `u64::MAX`
abbrev pub u64_max : ℕ
u64_max = 18446744073709551615

-- `u128::MAX`
abbrev pub u128_max : ℕ
u128_max = 340282366920938463463374607431768211455

abbrev pub saturating_add : ℕ → ℕ → ℕ → ℕ
saturating_add bound a b = min (a + b) bound

abbrev pub saturating_mul : ℕ → ℕ → ℕ → ℕ
saturating_mul bound a b = min (a * b) bound

-- Truncated subtraction is `saturating_sub`.
abbrev pub saturating_sub : ℕ → ℕ → ℕ
saturating_sub a b = a - b

abbrev pub checked_add : ℕ → ℕ → ℕ → Option ℕ
checked_add bound a b = if leb (a + b) bound then some (a + b) else none

abbrev pub checked_sub : ℕ → ℕ → Option ℕ
checked_sub a b = if leb b a then some (a - b) else none

abbrev pub checked_div : ℕ → ℕ → Option ℕ
checked_div a b = if b == 0 then none else some (a / b)

-- `Option::unwrap_or`
abbrev pub unwrap_or : ℕ → Option ℕ → ℕ
unwrap_or d none = d
unwrap_or d (some n) = n
