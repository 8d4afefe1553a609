-- ===== src/CustomPallet/SolventRuns.antt =====
-- The market pallet (pallets/custom-pallet/src/lib.rs) stays solvent along every run in which
-- nobody else takes from its account.
use subtrate.Base.{
  ℕ, ◌≤◌, ◌<◌, ◌≢◌, ◌∙◌, refl, ap, inl, inr, List, [], ◌∷◌, ◌++◌, arith, not, count_if-le-length,
  length, u32_max, Bool,
}
use subtrate.Frame.Dispatch.{AccountId, Origin, signed}
use subtrate.Frame.StorageDoubleMap
use subtrate.Frame.Currency.{IsCurrency}
use subtrate.CustomPallet.Types.{Market, Config, Storage}
use subtrate.CustomPallet.Calls.{account_id, PalletCall}
use subtrate.CustomPallet.Outcome.{new_market, meme_by}
use subtrate.CustomPallet.Steps.{
  CallStep, creates, votes_in, releases, adds_meme, dispatch-CallStep,
}
use subtrate.CustomPallet.Invariant.{IsValid}
use subtrate.CustomPallet.Payout.{free}
use subtrate.CustomPallet.Preserve.{CallStep-IsValid}
use subtrate.CustomPallet.Reach.{
  Step, calls, new_block, ledger_moves, Reach, here, next, Step-room, CallStep-room, Happening,
  call_by, block, ledger_set, happen, run, run-Reach,
}
use subtrate.CustomPallet.Solvency.{
  IsSolvent, IsSound, VotesFit, after_vote-IsSolvent, after_release-IsSolvent, stakes-insert,
  stakes-insert_new, Whole-insert, Whole-get,
}

module _ {L : Type 0} (c : Config L) where
  CallStep-votes_grow :
      {who : AccountId} {s t : Storage L} → CallStep c who s t → length s.votes ≤ length t.votes
  unfolding StorageDoubleMap.contains_key
  CallStep-votes_grow (creates bytes fits) = omega arith
  CallStep-votes_grow {who} {s} (votes_in m y k may) =
      ground (arith, StorageDoubleMap.length-insert m who y s.votes)
  CallStep-votes_grow (releases m k may) = omega arith
  CallStep-votes_grow (adds_meme m cid k may) = omega arith

  Step-votes_grow : {s t : Storage L} → Step c s t → length s.votes ≤ length t.votes
  Step-votes_grow (calls st) = CallStep-votes_grow st
  Step-votes_grow new_block = omega arith
  Step-votes_grow (ledger_moves l) = omega arith

  -- Identifiers and votes are still left, if they are at the end of the history.
  Reach-bounds :
      {s t : Storage L}
      → Reach c s t
      → t.market_count < u32_max
      → length t.votes ≤ u32_max
      → (s.market_count < u32_max) × (length s.votes ≤ u32_max)
  Reach-bounds here h v = (h, v)
  Reach-bounds (next r st) h v =
      Reach-bounds r (Step-room c st h) (omega (arith, Step-votes_grow st))

  -- Nobody calls as the pallet's account, which has no key, and nothing else takes from it.
  abbrev pub IsFair : List (Happening c) → Storage L → Type 0
  IsFair [] s = Unit
  IsFair (call_by o call ∷ hs) s =
      (o ≢ signed (account_id c)) × IsFair hs (happen c (call_by o call) s)
  IsFair (block ∷ hs) s = IsFair hs (happen c block s)
  IsFair (ledger_set l ∷ hs) s =
      (free c (account_id c) s.ledger ≤ free c (account_id c) l)
      × IsFair hs (happen c (ledger_set l) s)

module _ {L : Type 0} (c : Config L) (laws : IsCurrency c.currency) (sound : IsSound c) where
  fits : (s : Storage L) (m : ℕ) → length s.votes ≤ u32_max → VotesFit c laws sound s m
  fits s m h =
      let below = StorageDoubleMap.length-prefix-le m s.votes in
      (
        omega (
          arith,
          count_if-le-length (λ (e : AccountId × Bool). e.1) (StorageDoubleMap.prefix m s.votes),
        ),
        omega (
          arith,
          count_if-le-length (λ (e : AccountId × Bool). not e.1)
              (StorageDoubleMap.prefix m s.votes),
        ),
      )

  CallStep-IsSolvent :
      {who : AccountId} {s t : Storage L}
      → CallStep c who s t
      → who ≢ account_id c
      → IsValid c s
      → length s.votes ≤ u32_max
      → IsSolvent c s
      → IsSolvent c t
  CallStep-IsSolvent {who} {s} (creates bytes fit) other v few w =
      let k = new_market c who bytes s in
      let more =
        stakes-insert_new s.market_count k s.markets (v.fresh s.market_count (omega arith)) in
      record {
        covered = omega (arith, w.covered);
        whole =
            Whole-insert c.currency.minimum_balance s.market_count k s.markets (inl refl) w.whole;
      }
  CallStep-IsSolvent {who} {s} (votes_in m y k may) other v few w =
      after_vote-IsSolvent c laws sound who m y s k other may w
  CallStep-IsSolvent {who} {s} (releases m k may) other v few w =
      after_release-IsSolvent c laws sound m s k may v (fits s m few) w
  CallStep-IsSolvent {who} {s} (adds_meme m cid k may) other v few w =
      let least : ℕ = c.currency.minimum_balance in
      let k' : Market = record k { memes = k.memes ++ meme_by c who m cid ∷ [] } in
      let same = stakes-insert m k k' s.markets may.0 in
      record {
        covered = omega (arith, w.covered);
        whole =
            Whole-insert least m k' s.markets (Whole-get least m k s.markets may.0 w.whole) w.whole;
      }

  called :
      (o : Origin) (call : PalletCall) (s : Storage L)
      → o ≢ signed (account_id c)
      → (happen c (call_by o call) s).market_count < u32_max
      → length (happen c (call_by o call) s).votes ≤ u32_max
      → IsValid c s
      → IsSolvent c s
      → IsValid c (happen c (call_by o call) s) × IsSolvent c (happen c (call_by o call) s)
  unfolding happen
  called o call s other room few v w = elim (dispatch-CallStep c o call s) [
    | inl (fine, who, by, st) ↦ (
      CallStep-IsValid c st (CallStep-room c st room) v,
      CallStep-IsSolvent st (λ e. other (by ∙ ap signed e)) v
          (omega (arith, CallStep-votes_grow c st)) w,
    )
    | inr same ↦ rw same (v, w)
  ]

  blocked :
      (s : Storage L)
      → IsValid c s
      → IsSolvent c s
      → IsValid c (happen c block s) × IsSolvent c (happen c block s)
  unfolding happen
  blocked s v w = (
    record { markets_ok = v.markets_ok; fresh = v.fresh },
    record { covered = w.covered; whole = w.whole },
  )

  moved :
      (l : L) (s : Storage L)
      → IsValid c s
      → IsSolvent c s
      → free c (account_id c) s.ledger ≤ free c (account_id c) l
      → IsValid c (happen c (ledger_set l) s) × IsSolvent c (happen c (ledger_set l) s)
  unfolding happen
  moved l s v w more = (
    record { markets_ok = v.markets_ok; fresh = v.fresh },
    record { covered = omega (arith, w.covered); whole = w.whole },
  )

  -- Along a run from a valid and solvent storage the account of the pallet goes on holding the
  -- stakes of all the open markets: if nobody calls in the name of that account or takes from it,
  -- the configuration is sound, and neither the market identifiers nor the `u32` of the stored
  -- votes have run out at the end.
  pub run-IsSolvent :
      (hs : List (Happening c)) (s : Storage L)
      → IsValid c s
      → IsSolvent c s
      → IsFair c hs s
      → (run c hs s).market_count < u32_max
      → length (run c hs s).votes ≤ u32_max
      → IsSolvent c (run c hs s)
  unfolding run
  run-IsSolvent [] s v w fair h few = w
  run-IsSolvent (call_by o call ∷ hs) s v w (other, fair) h few =
      let s' : Storage L = happen c (call_by o call) s in
      let (room', few') = Reach-bounds c (run-Reach c hs s') h few in
      let (v', w') = called o call s other room' few' v w in run-IsSolvent hs s' v' w' fair h few
  run-IsSolvent (block ∷ hs) s v w fair h few =
      run-IsSolvent hs (happen c block s) (blocked s v w).0 (blocked s v w).1 fair h few
  run-IsSolvent (ledger_set l ∷ hs) s v w (more, fair) h few =
      run-IsSolvent hs (happen c (ledger_set l) s) (moved l s v w more).0 (moved l s v w more).1
        fair h few
