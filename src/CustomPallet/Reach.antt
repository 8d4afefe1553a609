-- ===== src/CustomPallet/Reach.antt =====
-- What holds of the market pallet (pallets/custom-pallet/src/lib.rs) along any history: calls,
-- the passing of blocks, and whatever else moves balances on the ledger.
use subtrate.Base.{inl, inr, ℕ, ◌+◌, ◌≤◌, ◌<◌, refl, [], arith, u32_max, List, ◌∷◌}
use subtrate.Frame.Dispatch.{AccountId, Origin}
use subtrate.Frame.StorageMap
use subtrate.Frame.StorageDoubleMap
use subtrate.CustomPallet.Types.{Config, Storage}
use subtrate.CustomPallet.Calls.{PalletCall, dispatch}
use subtrate.CustomPallet.Steps.{
  dispatch-CallStep, CallStep, creates, votes_in, releases, adds_meme,
}
use subtrate.CustomPallet.Invariant.{IsValid}
use subtrate.CustomPallet.Preserve.{CallStep-IsValid}

module _ {L : Type 0} (c : Config L) where
  -- One event: a successful call, a new block, or a change of the ledger by anything else.
  pub data Step (s : Storage L) : Storage L → Type 0 where
    calls : {who : AccountId} {t : Storage L} → CallStep c who s t → Step s t
    new_block : Step s (record s { block_number = s.block_number + 1 })
    ledger_moves : (l : L) → Step s (record s { ledger = l })

  pub data Reach (s : Storage L) : Storage L → Type 0 where
    here : Reach s s
    next : {t u : Storage L} → Reach s t → Step t u → Reach s u

  -- The storage items before the first call.
  abbrev pub genesis : ℕ → L → Storage L
  genesis block l = record {
    markets = [];
    market_count = 0;
    votes = [];
    events = [];
    block_number = block;
    ledger = l;
  }

  pub genesis-IsValid : (block : ℕ) (l : L) → IsValid c (genesis block l)
  unfolding StorageMap.get StorageDoubleMap.prefix
  genesis-IsValid block l = record { markets_ok = λ i. refl; fresh = λ i h. refl }

  CallStep-count :
      {who : AccountId} {s t : Storage L}
      → CallStep c who s t
      → s.market_count ≤ u32_max
      → (s.market_count ≤ t.market_count) × (t.market_count ≤ u32_max)
  CallStep-count (creates bytes fits) h = omega arith
  CallStep-count (votes_in m y k may) h = omega arith
  CallStep-count (releases m k may) h = omega arith
  CallStep-count (adds_meme m cid k may) h = omega arith

  -- The next identifier never falls, and stays a `u32`.
  pub Step-count :
      {s t : Storage L}
      → Step s t
      → s.market_count ≤ u32_max
      → (s.market_count ≤ t.market_count) × (t.market_count ≤ u32_max)
  Step-count (calls st) h = CallStep-count st h
  Step-count new_block h = omega arith
  Step-count (ledger_moves l) h = omega arith

  pub CallStep-room :
      {who : AccountId} {s t : Storage L}
      → CallStep c who s t
      → t.market_count < u32_max
      → s.market_count < u32_max
  CallStep-room (creates bytes fits) h = omega arith
  CallStep-room (votes_in m y k may) h = h
  CallStep-room (releases m k may) h = h
  CallStep-room (adds_meme m cid k may) h = h

  pub Step-room : {s t : Storage L} → Step s t → t.market_count < u32_max → s.market_count < u32_max
  Step-room (calls st) h = CallStep-room st h
  Step-room new_block h = h
  Step-room (ledger_moves l) h = h

  pub Step-IsValid :
      {s t : Storage L} → Step s t → t.market_count < u32_max → IsValid c s → IsValid c t
  Step-IsValid (calls st) h v = CallStep-IsValid c st (Step-room (calls st) h) v
  Step-IsValid new_block h v = record { markets_ok = v.markets_ok; fresh = v.fresh }
  Step-IsValid (ledger_moves l) h v = record { markets_ok = v.markets_ok; fresh = v.fresh }

  pub Reach-IsValid :
      {s t : Storage L} → Reach s t → t.market_count < u32_max → IsValid c s → IsValid c t
  Reach-IsValid here h v = v
  Reach-IsValid (next r st) h v = Step-IsValid st h (Reach-IsValid r (Step-room st h) v)

  -- What can happen, for a run: a dispatched call, which may fail, a new block, or a change of the
  -- ledger by anything else.
  pub data Happening : Type 0 where
    call_by : Origin → PalletCall → Happening
    block : Happening
    ledger_set : L → Happening

  unfoldable pub happen : Happening → Storage L → Storage L
  happen (call_by o call) s = (dispatch c o call s).1
  happen block s = record s { block_number = s.block_number + 1 }
  happen (ledger_set l) s = record s { ledger = l }

  unfoldable pub run : List Happening → Storage L → Storage L
  run [] s = s
  run (h ∷ hs) s = run hs (happen h s)

  pub happen-Reach : (h : Happening) (s t : Storage L) → Reach t s → Reach t (happen h s)
  unfolding happen
  happen-Reach (call_by o call) s t r = elim (dispatch-CallStep c o call s) [
    | inl (fine, who, by, st) ↦ next r (calls st)
    | inr same ↦ rw same r
  ]
  happen-Reach block s t r = next r new_block
  happen-Reach (ledger_set l) s t r = next r (ledger_moves l)

  Reach-run : (hs : List Happening) (s t : Storage L) → Reach t s → Reach t (run hs s)
  unfolding run
  Reach-run [] s t r = r
  Reach-run (h ∷ hs) s t r = Reach-run hs (happen h s) t (happen-Reach h s t r)

  -- Every run is a history of steps.
  pub run-Reach : (hs : List Happening) (s : Storage L) → Reach s (run hs s)
  run-Reach hs s = Reach-run hs s s here

  -- After any run from the empty storage that has not used up the market identifiers, the counters
  -- and the stake of every market agree with the votes stored for it, no votes are stored for a
  -- market that does not exist, and metadata, memes and content identifiers keep their bounds.
  pub run-IsValid :
      (block_number : ℕ) (l : L) (hs : List Happening)
      → (run hs (genesis block_number l)).market_count < u32_max
      → IsValid c (run hs (genesis block_number l))
  run-IsValid block_number l hs h =
      Reach-IsValid (run-Reach hs (genesis block_number l)) h (genesis-IsValid block_number l)
