-- ===== src/Counter/Runs.antt =====
-- The counter pallet (pallets/custom-pallet/src/custom.rs) over any list of calls, which may fail.
use subtrate.Base.{ℕ, ◌+◌, ◌≤◌, ◌≡◌, ◌⊎◌, inl, inr, some, List, [], ◌∷◌, arith}
use subtrate.Frame.Dispatch.{
  AccountId, Origin, root, signed, unsigned, DispatchError, ok, err, transactional-err,
}
use subtrate.Frame.Currency.{Result-cases}
use subtrate.Counter.Types.{Config, Storage, Error}
use subtrate.Counter.Calls.{
  PalletCall, set_counter_value_call, increment_call, decrement_call, run_call, dispatch,
}
use subtrate.Counter.Outcome.{
  value, interactions, Accepts, value_after, counts_for, dispatch_succeeds_iff, dispatch_effect,
}

module _ (c : Config) where
  unfoldable pub run : List (Origin × PalletCall) → Storage → Storage
  run [] s = s
  run ((o, call) ∷ calls) s = run calls (dispatch c o call s).1

  -- How many calls of the list succeed and count for the account, each in the state it meets.
  unfoldable pub successes : AccountId → List (Origin × PalletCall) → Storage → ℕ
  successes a [] s = 0
  successes a ((o, call) ∷ calls) s =
      elim (dispatch c o call s).0 [ ok _ ↦ counts_for a o call | err _ ↦ 0 ]
      + successes a calls (dispatch c o call s).1

  pub dispatch_cases :
      (o : Origin) (call : PalletCall) (s : Storage)
      → ((dispatch c o call s).0 ≡ ok tt)
        ⊎ ((e : DispatchError Error) × ((dispatch c o call s).0 ≡ err e)
            × ((dispatch c o call s).1 ≡ s))
  unfolding dispatch
  dispatch_cases o call s = elim (Result-cases (dispatch c o call s).0) [
    | inl fine ↦ inl fine
    | inr (e, failed) ↦ inr (e, failed, transactional-err (run_call c o call) s e failed)
  ]

  -- After any calls the interactions counted for an account are those counted before, and one for
  -- each increment and decrement that it signed and that succeeded.
  pub run-interactions :
      (a : ℕ) (calls : List (Origin × PalletCall)) (s : Storage)
      → interactions a (run calls s) ≡ interactions a s + successes a calls s
  unfolding run successes
  run-interactions a [] s = omega arith
  run-interactions a ((o, call) ∷ calls) s =
      let rest = run-interactions a calls (dispatch c o call s).1 in
      elim (dispatch_cases o call s) [
        | inl fine ↦ ground (arith, rest, (dispatch_effect c o call s fine).1 a)
        | inr (e, failed, same) ↦ ground (arith, rest)
      ]

  dispatch-value-le :
      (o : Origin) (call : PalletCall) (s : Storage)
      → value s ≤ c.counter_max_value
      → value (dispatch c o call s).1 ≤ c.counter_max_value
  dispatch-value-le o call s h = elim (dispatch_cases o call s) [
    | inl fine ↦
        bound o call ((dispatch_succeeds_iff c o call s).0 fine) (dispatch_effect c o call s fine).0
    | inr (e, failed, same) ↦ rw same h
  ]
    where
      bound :
          (o : Origin) (call : PalletCall)
          → Accepts c o call s
          → (dispatch c o call s).1.counter_value ≡ some (value_after call (value s))
          → value (dispatch c o call s).1 ≤ c.counter_max_value
      bound root (set_counter_value_call n) may e = rw e (omega arith)
      bound root (increment_call n) may e = absurd may
      bound root (decrement_call n) may e = absurd may
      bound unsigned call may e = absurd may
      bound (signed who) (set_counter_value_call n) may e = absurd may
      bound (signed who) (increment_call n) may e = rw e (omega arith)
      bound (signed who) (decrement_call n) may e = rw e (omega arith)

  -- The counter never exceeds the configured maximum, whatever is called by whomever.
  pub run-value-le :
      (calls : List (Origin × PalletCall)) (s : Storage)
      → value s ≤ c.counter_max_value
      → value (run calls s) ≤ c.counter_max_value
  unfolding run
  run-value-le [] s h = h
  run-value-le ((o, call) ∷ calls) s h =
      run-value-le calls (dispatch c o call s).1 (dispatch-value-le o call s h)
