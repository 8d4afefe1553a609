-- ===== src/Counter/Events.antt =====
-- The events of the counter pallet (pallets/custom-pallet/src/custom.rs) tell its storage.
use subtrate.Base.{
  ℕ, ◌+◌, ◌-◌, ◌≤◌, ◌<◌, ◌≡◌, sym, refl, Option, none, some, List, [], ◌∷◌, arith, ◌==◌,
  if◌then◌else◌, inl, inr, u32_max, unwrap_or, ap,
}
use subtrate.Frame.Dispatch.{AccountId, Origin, root, signed, unsigned}
use subtrate.Frame.StorageMap
use subtrate.Counter.Types.{
  Config, Storage, Event, counter_value_set, counter_incremented, counter_decremented,
}
use subtrate.Counter.Calls.{
  set_counter_value, increment, decrement, PalletCall, set_counter_value_call, increment_call,
  decrement_call, run_call, dispatch,
}
use subtrate.Counter.Outcome.{value, interactions, Accepts, dispatch_succeeds_iff}
use subtrate.Counter.Runs.{run, dispatch_cases}

-- The counter by the events, newest first: the amounts added and taken since it was last set.
unfoldable pub value_told : List Event → Option ℕ
value_told [] = none
value_told (counter_value_set v ∷ es) = some v
value_told (counter_incremented v who n ∷ es) = some (unwrap_or 0 (value_told es) + n)
value_told (counter_decremented v who n ∷ es) = some (unwrap_or 0 (value_told es) - n)

-- How many events are of an account.
unfoldable pub actions_told : AccountId → List Event → ℕ
actions_told a [] = 0
actions_told a (counter_value_set v ∷ es) = actions_told a es
actions_told a (counter_incremented v who n ∷ es) = actions_told a es + (if who == a then 1 else 0)
actions_told a (counter_decremented v who n ∷ es) = actions_told a es + (if who == a then 1 else 0)

-- The storage before the first call.
abbrev pub empty : Storage
empty = record { counter_value = none; user_interactions = []; events = [] }

module _ (c : Config) where
  -- Every event tells the value that it leads to, in range, and is one of an account whose
  -- interactions could still be counted.
  abbrev pub IsHistory : List Event → Type 0
  IsHistory [] = Unit
  IsHistory (counter_value_set v ∷ es) = (v ≤ c.counter_max_value) × IsHistory es
  IsHistory (counter_incremented v who n ∷ es) =
      (v ≡ unwrap_or 0 (value_told es) + n)
      × (v ≤ c.counter_max_value)
      × (actions_told who es < u32_max)
      × IsHistory es
  IsHistory (counter_decremented v who n ∷ es) =
      (v + n ≡ unwrap_or 0 (value_told es)) × (actions_told who es < u32_max) × IsHistory es

  pub record IsRecorded (s : Storage) : Type 0 where
    pub counter : s.counter_value ≡ value_told s.events
    pub actions : (a : ℕ) → interactions a s ≡ actions_told a s.events
    pub history : IsHistory s.events

  abbrev after_set : ℕ → Storage → Storage
  after_set n s = record s { counter_value = some n; events = counter_value_set n ∷ s.events }

  abbrev after_increment : AccountId → ℕ → Storage → Storage
  after_increment who n s = record s {
    counter_value = some (value s + n);
    user_interactions = StorageMap.insert who (interactions who s + 1) s.user_interactions;
    events = counter_incremented (value s + n) who n ∷ s.events;
  }

  abbrev after_decrement : AccountId → ℕ → Storage → Storage
  after_decrement who n s = record s {
    counter_value = some (value s - n);
    user_interactions = StorageMap.insert who (interactions who s + 1) s.user_interactions;
    events = counter_decremented (value s - n) who n ∷ s.events;
  }

  set-effect :
      (n : ℕ) (s : Storage)
      → n ≤ c.counter_max_value
      → (dispatch c root (set_counter_value_call n) s).1 ≡ after_set n s
  unfolding dispatch run_call set_counter_value
  set-effect n s h = ground arith

  increment-effect :
      (who n : ℕ) (s : Storage)
      → Accepts c (signed who) (increment_call n) s
      → (dispatch c (signed who) (increment_call n) s).1 ≡ after_increment who n s
  unfolding dispatch run_call increment
  increment-effect who n s h = ground arith

  decrement-effect :
      (who n : ℕ) (s : Storage)
      → Accepts c (signed who) (decrement_call n) s
      → (dispatch c (signed who) (decrement_call n) s).1 ≡ after_decrement who n s
  unfolding dispatch run_call decrement
  decrement-effect who n s h = ground arith

  -- One more interaction of an account.
  counted :
      (who a : ℕ) (s : Storage)
      → IsRecorded s
      → unwrap_or 0
          (StorageMap.get a (StorageMap.insert who (interactions who s + 1) s.user_interactions))
        ≡ actions_told a s.events + (if who == a then 1 else 0)
  counted who a s told = ground (
    arith,
    StorageMap.get-insert who a (interactions who s + 1) s.user_interactions,
    told.actions a,
    told.actions who,
  )

  accepted-IsRecorded :
      (o : Origin) (call : PalletCall) (s : Storage)
      → Accepts c o call s
      → IsRecorded s
      → IsRecorded (dispatch c o call s).1
  unfolding value_told actions_told
  accepted-IsRecorded root (set_counter_value_call n) s may told =
      rw (set-effect n s may)
        (record { counter = refl; actions = told.actions; history = (may, told.history) })
  accepted-IsRecorded root (increment_call n) s may told = absurd may
  accepted-IsRecorded root (decrement_call n) s may told = absurd may
  accepted-IsRecorded unsigned call s may told = absurd may
  accepted-IsRecorded (signed who) (set_counter_value_call n) s may told = absurd may
  accepted-IsRecorded (signed who) (increment_call n) s may told =
      let before = ap (unwrap_or 0) told.counter in
      rw (increment-effect who n s may) (record {
        counter = ap (λ v. some (v + n)) before;
        actions = λ a. counted who a s told;
        history = (ap (λ v. v + n) before, may.1, rw (sym (told.actions who)) may.2, told.history);
      })
  accepted-IsRecorded (signed who) (decrement_call n) s may told =
      let before = ap (unwrap_or 0) told.counter in
      rw (decrement-effect who n s may) (record {
        counter = ap (λ v. some (v - n)) before;
        actions = λ a. counted who a s told;
        history = (omega arith, rw (sym (told.actions who)) may.1, told.history);
      })

  dispatch-IsRecorded :
      (o : Origin) (call : PalletCall) (s : Storage)
      → IsRecorded s
      → IsRecorded (dispatch c o call s).1
  dispatch-IsRecorded o call s told = elim (dispatch_cases c o call s) [
    | inl fine ↦ accepted-IsRecorded o call s ((dispatch_succeeds_iff c o call s).0 fine) told
    | inr (e, failed, same) ↦ rw same told
  ]

  Run-IsRecorded :
      (calls : List (Origin × PalletCall)) (s : Storage) → IsRecorded s → IsRecorded (run c calls s)
  unfolding run
  Run-IsRecorded [] s told = told
  Run-IsRecorded ((o, call) ∷ calls) s told =
      Run-IsRecorded calls (dispatch c o call s).1 (dispatch-IsRecorded o call s told)

  empty-IsRecorded : IsRecorded empty
  unfolding value_told actions_told StorageMap.get
  empty-IsRecorded = record { counter = refl; actions = λ a. refl; history = tt }

  -- After any calls from the empty storage the events tell the storage: the counter is what was
  -- added less what was taken since it was last set, and the interactions of an account are the
  -- number of its increments and decrements. Every event tells the value that it leads to, which is
  -- no larger than the maximum after a setting or an increment and was not below zero after a
  -- decrement, and each of an account came while its interactions could still be counted.
  pub run-IsRecorded : (calls : List (Origin × PalletCall)) → IsRecorded (run c calls empty)
  run-IsRecorded calls = Run-IsRecorded calls empty empty-IsRecorded
