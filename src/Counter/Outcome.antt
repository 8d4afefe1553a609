-- ===== src/Counter/Outcome.antt =====
-- When a call of the counter pallet (pallets/custom-pallet/src/custom.rs) succeeds, what it
-- writes, and what it leaves behind when it fails.
use subtrate.Base.{
  ℕ, ◌+◌, ◌-◌, ◌≤◌, ◌<◌, ◌≡◌, ◌↔◌, some, arith, u32_max, unwrap_or, ◌==◌, if◌then◌else◌,
}
use subtrate.Frame.Dispatch.{AccountId, Origin, root, signed, unsigned, ok, err, pallet_error}
use subtrate.Frame.StorageMap
use subtrate.Counter.Types.{Config, Storage, user_interaction_overflow}
use subtrate.Counter.Calls.{
  set_counter_value, increment, decrement, PalletCall, set_counter_value_call, increment_call,
  decrement_call, run_call, dispatch,
}

-- `CounterValue::get().unwrap_or(0)`
abbrev pub value : Storage → ℕ
value s = unwrap_or 0 s.counter_value

-- `UserInteractions::get(who).unwrap_or(0)`
abbrev pub interactions : AccountId → Storage → ℕ
interactions who s = unwrap_or 0 (StorageMap.get who s.user_interactions)

-- What a call needs, and the value of the counter after it.
abbrev pub Accepts : Config → Origin → PalletCall → Storage → Type 0
Accepts c root (set_counter_value_call n) s = n ≤ c.counter_max_value
Accepts c root (increment_call n) s = ⊥
Accepts c root (decrement_call n) s = ⊥
Accepts c unsigned call s = ⊥
Accepts c (signed who) (set_counter_value_call n) s = ⊥
Accepts c (signed who) (increment_call n) s =
    (value s + n ≤ u32_max) × (value s + n ≤ c.counter_max_value) × (interactions who s < u32_max)
Accepts c (signed who) (decrement_call n) s = (n ≤ value s) × (interactions who s < u32_max)

abbrev pub value_after : PalletCall → ℕ → ℕ
value_after (set_counter_value_call n) v = n
value_after (increment_call n) v = v + n
value_after (decrement_call n) v = v - n

-- How often a call that succeeds counts for an account.
abbrev pub counts_for : AccountId → Origin → PalletCall → ℕ
counts_for a root call = 0
counts_for a unsigned call = 0
counts_for a (signed who) call = if who == a then 1 else 0

module _ (c : Config) where
  -- A dispatched call succeeds exactly when its origin is the one it asks for, the new value is in
  -- range, and the caller's interactions can still be counted.
  pub dispatch_succeeds_iff :
      (o : Origin) (call : PalletCall) (s : Storage)
      → ((dispatch c o call s).0 ≡ ok tt) ↔ Accepts c o call s
  unfolding dispatch run_call set_counter_value increment decrement
  dispatch_succeeds_iff root (set_counter_value_call n) s = ground arith
  dispatch_succeeds_iff root (increment_call n) s = ground arith
  dispatch_succeeds_iff root (decrement_call n) s = ground arith
  dispatch_succeeds_iff unsigned (set_counter_value_call n) s = ground arith
  dispatch_succeeds_iff unsigned (increment_call n) s = ground arith
  dispatch_succeeds_iff unsigned (decrement_call n) s = ground arith
  dispatch_succeeds_iff (signed who) (set_counter_value_call n) s = ground arith
  dispatch_succeeds_iff (signed who) (increment_call n) s = ground arith
  dispatch_succeeds_iff (signed who) (decrement_call n) s = ground arith

  -- A successful call sets the counter to the value asked for, counts one interaction for a caller
  -- that signed it, and none for anybody else.
  pub dispatch_effect :
      (o : Origin) (call : PalletCall) (s : Storage)
      → (dispatch c o call s).0 ≡ ok tt
      → ((dispatch c o call s).1.counter_value ≡ some (value_after call (value s)))
        × ((a : ℕ)
            → interactions a (dispatch c o call s).1 ≡ interactions a s + counts_for a o call)
  unfolding dispatch run_call set_counter_value increment decrement
  dispatch_effect root (set_counter_value_call n) s h = (ground arith, λ a. ground arith)
  dispatch_effect root (increment_call n) s h = absurd (ground arith)
  dispatch_effect root (decrement_call n) s h = absurd (ground arith)
  dispatch_effect unsigned (set_counter_value_call n) s h = absurd (ground arith)
  dispatch_effect unsigned (increment_call n) s h = absurd (ground arith)
  dispatch_effect unsigned (decrement_call n) s h = absurd (ground arith)
  dispatch_effect (signed who) (set_counter_value_call n) s h = absurd (ground arith)
  dispatch_effect (signed who) (increment_call n) s h = (
    ground arith,
    λ a. ground (arith, StorageMap.get-insert who a (interactions who s + 1) s.user_interactions),
  )
  dispatch_effect (signed who) (decrement_call n) s h = (
    ground arith,
    λ a. ground (arith, StorageMap.get-insert who a (interactions who s + 1) s.user_interactions),
  )

  -- A call whose only obstacle is the caller's exhausted interaction count fails after it has
  -- written the counter: the body leaves the new value behind, and only the storage layer of the
  -- dispatch takes it back.
  pub increment_writes_then_fails :
      (who n : ℕ) (s : Storage)
      → value s + n ≤ u32_max
      → value s + n ≤ c.counter_max_value
      → interactions who s ≡ u32_max
      → ((increment c (signed who) n s).0 ≡ err (pallet_error user_interaction_overflow))
        × ((increment c (signed who) n s).1 ≡ record s { counter_value = some (value s + n) })
        × (dispatch c (signed who) (increment_call n) s
            ≡ (err (pallet_error user_interaction_overflow), s))
  unfolding dispatch run_call increment
  increment_writes_then_fails who n s top cap full = (ground arith, ground arith, ground arith)

  -- A decrement undoes an increment of the same amount: when both succeed one after the other the
  -- counter has its old value again, and the account two more interactions.
  pub increment_then_decrement :
      (who n : ℕ) (s : Storage)
      → (dispatch c (signed who) (increment_call n) s).0 ≡ ok tt
      → let s' = (dispatch c (signed who) (increment_call n) s).1 in
        let s'' = (dispatch c (signed who) (decrement_call n) s').1 in
        (dispatch c (signed who) (decrement_call n) s').0 ≡ ok tt
        → (value s'' ≡ value s) × (interactions who s'' ≡ interactions who s + 2)
  increment_then_decrement who n s h h' =
      let s' = (dispatch c (signed who) (increment_call n) s).1 in
      let (up, more) = dispatch_effect (signed who) (increment_call n) s h in
      let (down, twice) = dispatch_effect (signed who) (decrement_call n) s' h' in
      (ground arith, ground (arith, more who, twice who))
