-- ===== src/CustomPallet/Board/Refines.antt =====
-- The calls of the market pallet (pallets/custom-pallet/src/lib.rs) against the rules of its board.
use mathlib.Core.Option
use mathlib.Core.Quot
use mathlib.Core.Path.{fun_ext}
use subtrate.Base.{
  ℕ, ◌≡◌, refl, sym, ap, ◌∙◌, Bool, true, false, Option, none, some, [], ◌∷◌, arith, ◌==◌, leb,
  length, count_if, inl, inr, ◌++◌, saturating_add, u32_max, Option-cases, Bool-cases,
}
use subtrate.Frame.Dispatch.{AccountId, signed, Result, ok, err, DispatchError}
use subtrate.Frame.StorageMap
use subtrate.Frame.StorageDoubleMap
use subtrate.Frame.Currency.{keep_alive, Result-cases}
use subtrate.CustomPallet.Types.{Market, Config, Error, Storage, max_metadata_len}
use subtrate.CustomPallet.Calls.{
  account_id, count_vote, PalletCall, create_market_call, vote_call, release_rewards_call,
  create_meme_call, dispatch, run_call,
}
use subtrate.CustomPallet.Vote.{MayVote, vote-of_MayVote}
use subtrate.CustomPallet.Outcome.{
  new_market, create_market-of_le, release-of_MayRelease, create_meme-of_MayAddMeme,
}
use subtrate.CustomPallet.Steps.{Accepts, dispatch-ok_iff}
use subtrate.CustomPallet.Board.{
  Ballot, tally, cast, by, Listing, Board, set_at, rule, meme_by, judged, may_vote,
}

abbrev pub listed : Market → Listing
listed k = record {
  creator = k.creator;
  end_block = k.end_block;
  is_active = k.is_active;
  metadata = k.metadata;
  memes = k.memes;
}

abbrev pub ballot_of : {L : Type 0} → Storage L → ℕ → Ballot
ballot_of s i = Quot.mk (StorageDoubleMap.prefix i s.votes)

-- The board that a storage shows: counters and stakes are left out, and the order of the votes.
abbrev pub board_of : {L : Type 0} → Storage L → Board
board_of s = record {
  listing = λ i. Option.map listed (StorageMap.get i s.markets);
  ballot = ballot_of s;
  next = s.market_count;
}

-- An account has no vote in a market exactly when the market's ballot has none of it.
tally-voted :
    (m who : ℕ) (votes : StorageDoubleMap.StorageDoubleMap Bool)
    → (count_if (by who) (StorageDoubleMap.prefix m votes) == 0)
      ≡ elim (StorageDoubleMap.get m who votes) [ none ↦ true | some _ ↦ false ]
unfolding StorageDoubleMap.get StorageDoubleMap.prefix
tally-voted m who [] = refl
tally-voted m who ((k, j, v) ∷ votes) = ground (arith, tally-voted m who votes)

fresh-of_tally :
    (m who : ℕ) (votes : StorageDoubleMap.StorageDoubleMap Bool)
    → (count_if (by who) (StorageDoubleMap.prefix m votes) == 0) ≡ true
    → StorageDoubleMap.get m who votes ≡ none
fresh-of_tally m who votes h = elim (Option-cases (StorageDoubleMap.get m who votes)) [
  | inl missing ↦ missing
  | inr (v, found) ↦
      let cast_one : (count_if (by who) (StorageDoubleMap.prefix m votes) == 0) ≡ false =
        tally-voted m who votes ∙ rw found refl in
      absurd (cc)
]

ballot-insert :
    (m who : ℕ) (y : Bool) (votes : StorageDoubleMap.StorageDoubleMap Bool)
    → StorageDoubleMap.get m who votes ≡ none
    → (i : ℕ)
    → ◌≡◌ {A = Ballot}
        (Quot.mk (StorageDoubleMap.prefix i (StorageDoubleMap.insert m who y votes)))
        (set_at m
          (cast who y (Quot.mk (StorageDoubleMap.prefix m votes)))
          (λ i. Quot.mk (StorageDoubleMap.prefix i votes))
          i)
unfolding cast StorageDoubleMap.contains_key
ballot-insert m who y votes fresh i = elim (Bool-cases (m == i)) [
  | inl same ↦
      rw same (
        Quot.sound (λ p. ground (arith, StorageDoubleMap.count_if-prefix-insert p m who i y votes)))
  | inr other ↦
      rw other (
        Quot.sound (λ p. ground (arith, StorageDoubleMap.count_if-prefix-insert p m who i y votes)))
]

listing-insert :
    (m : ℕ) (k : Market) (ms : StorageMap.StorageMap Market) (i : ℕ)
    → Option.map listed (StorageMap.get i (StorageMap.insert m k ms))
      ≡ set_at m (some (listed k)) (λ i. Option.map listed (StorageMap.get i ms)) i
listing-insert m k ms i = ground (arith, StorageMap.get-insert m i k ms)

listed-count_vote :
    {L : Type 0} (c : Config L) (y : Bool) (k : Market) → listed (count_vote c y k) ≡ listed k
unfolding count_vote
listed-count_vote c true k = refl
listed-count_vote c false k = refl

-- A market that is written back as it was listed changes no listing.
listing-kept :
    (m : ℕ) (k k' : Market) (ms : StorageMap.StorageMap Market)
    → StorageMap.get m ms ≡ some k
    → listed k' ≡ listed k
    → (i : ℕ)
    → Option.map listed (StorageMap.get i (StorageMap.insert m k' ms))
      ≡ Option.map listed (StorageMap.get i ms)
listing-kept m k k' ms found same i = elim (Bool-cases (m == i)) [
  | inl at ↦
      let here : StorageMap.get i ms ≡ some k = ground arith in
      rw (StorageMap.get-insert m i k' ms, at, here) (ap some same)
  | inr other ↦ rw (StorageMap.get-insert m i k' ms, other) refl
]

judged-some :
    (o : Option Listing) (may : Listing → Bool) (next : Listing → Board) (k : Listing)
    → o ≡ some k
    → may k ≡ true
    → judged o may next ≡ some (next k)
judged-some o may next k h allowed = rw (h, allowed) refl

judged-of_some :
    (o : Option Market) (may : Listing → Bool) (next : Listing → Board) (b : Board)
    → judged (Option.map listed o) may next ≡ some b
    → (k : Market) × (o ≡ some k) × (may (listed k) ≡ true)
judged-of_some none may next b h = absurd (cc)
judged-of_some (some k) may next b h = elim (Bool-cases (may (listed k))) [
  | inl allowed ↦ (k, refl, allowed)
  | inr refused ↦
      let nothing : judged (some (listed k)) may next ≡ none = rw refused refl in absurd (cc)
]

abbrev pub succeeded : {E : Type 0} → Result E (Unit {0}) → Bool
succeeded (ok _) = true
succeeded (err _) = false

ok-of_succeeded : {E : Type 0} (r : Result E (Unit {0})) → succeeded r ≡ true → r ≡ ok tt
ok-of_succeeded (ok tt) h = refl
ok-of_succeeded (err e) h = absurd (cc)

module _ {L : Type 0} (c : Config L) where
  -- Whether the cost of a vote can be moved.
  abbrev pub paid : AccountId → Storage L → Bool
  paid who s = succeeded (c.currency.transfer who (account_id c) c.vote_cost keep_alive s.ledger).0

  may_vote-of_MayVote :
      (who m : ℕ) (s : Storage L) (k : Market)
      → MayVote c who m s k
      → may_vote s.block_number who (paid who s) (listed k) (ballot_of s m) ≡ true
  unfolding tally
  may_vote-of_MayVote who m s k (found, active, early, fresh, pays) =
      let none_of : count_if (by who) (StorageDoubleMap.prefix m s.votes) == 0 ≡ true =
        tally-voted m who s.votes ∙ rw fresh refl in
      let can : paid who s ≡ true = ap succeeded pays in rw (active, none_of, can) (ground arith)

  -- The board after a call, if it succeeds.
  abbrev pub shown : Result (DispatchError Error) (Unit {0}) × Storage L → Option Board
  shown (ok _, t) = some (board_of t)
  shown (err _, t) = none

  abbrev pub ruled : AccountId → PalletCall → Storage L → Option Board
  ruled who call s = rule c.market_duration who s.block_number (paid who s) call (board_of s)

  -- A call whose guards hold leaves the board that the rules give.
  shown-of_Accepts :
      (who : AccountId) (call : PalletCall) (s : Storage L)
      → Accepts c (signed who) call s
      → shown (run_call c (signed who) call s) ≡ ruled who call s
  unfolding run_call
  shown-of_Accepts who (create_market_call bytes) s h =
      let fits : leb (length bytes) max_metadata_len ≡ true = ground arith in
      ap shown (create_market-of_le c who bytes s h)
      ∙ rw fits (
          ap some (λ i. record {
            listing =
                fun_ext (listing-insert s.market_count (new_market c who bytes s) s.markets) i;
            ballot = ballot_of s;
            next = saturating_add u32_max s.market_count 1;
          }))
  shown-of_Accepts who (vote_call m y) s (k, h) =
      ap shown (vote-of_MayVote c who m y s k h)
      ∙ ap some (λ i. record {
        listing =
            fun_ext (listing-kept m k (count_vote c y k) s.markets h.0 (listed-count_vote c y k)) i;
        ballot = fun_ext (ballot-insert m who y s.votes h.3) i;
        next = s.market_count;
      })
      ∙ sym (
          judged-some _ _ _ (listed k) (ap (Option.map listed) h.0)
            (may_vote-of_MayVote who m s k h))
  shown-of_Accepts who (release_rewards_call m) s (k, h) =
      ap shown (release-of_MayRelease c who m s k h)
      ∙ ap some (λ i. record {
        listing = fun_ext (listing-insert m (record k { is_active = false }) s.markets) i;
        ballot = ballot_of s;
        next = s.market_count;
      })
      ∙ sym (judged-some _ _ _ (listed k) (ap (Option.map listed) h.0) (ground arith))
  shown-of_Accepts who (create_meme_call m cid) s (k, h) =
      ap shown (create_meme-of_MayAddMeme c who m cid s k h)
      ∙ ap some (λ i. record {
        listing =
            fun_ext
              (listing-insert m (record k { memes = k.memes ++ meme_by who m cid ∷ [] }) s.markets)
              i;
        ballot = ballot_of s;
        next = s.market_count;
      })
      ∙ sym (judged-some _ _ _ (listed k) (ap (Option.map listed) h.0) (ground arith))

  Accepts-of_ruled :
      (who : AccountId) (call : PalletCall) (s : Storage L) (b : Board)
      → ruled who call s ≡ some b
      → Accepts c (signed who) call s
  unfolding tally
  Accepts-of_ruled who (create_market_call bytes) s b h = ground arith
  Accepts-of_ruled who (vote_call m y) s b h =
      let (k, found, may) = judged-of_some (StorageMap.get m s.markets) _ _ b h in
      let none_of : (count_if (by who) (StorageDoubleMap.prefix m s.votes) == 0) ≡ true =
        ground arith in
      let can : paid who s ≡ true = ground arith in
      (
        k,
        (
          found,
          ground arith,
          ground arith,
          fresh-of_tally m who s.votes none_of,
          ok-of_succeeded (c.currency.transfer who (account_id c) c.vote_cost keep_alive s.ledger).0
              can,
        ),
      )
  Accepts-of_ruled who (release_rewards_call m) s b h =
      let (k, found, may) = judged-of_some (StorageMap.get m s.markets) _ _ b h in
      (k, (found, ground arith, ground arith))
  Accepts-of_ruled who (create_meme_call m cid) s b h =
      let (k, found, may) = judged-of_some (StorageMap.get m s.markets) _ _ b h in
      (k, (found, ground arith, ground arith, ground arith))

  -- A storage layer shows what the call in it shows.
  shown-layer :
      (x : Result (DispatchError Error) (Unit {0}) × Storage L) (s : Storage L)
      → shown (elim x.0 [ ok a ↦ (ok a, x.1) | err e ↦ (err e, s) ]) ≡ shown x
  shown-layer (ok _, t) s = refl
  shown-layer (err e, t) s = refl

  shown-err :
      (x : Result (DispatchError Error) (Unit {0}) × Storage L) (e : DispatchError Error)
      → x.0 ≡ err e
      → shown x ≡ none
  shown-err (ok _, t) e h = absurd (cc)
  shown-err (err _, t) e h = refl

  -- The calls implement the rules of the board: a signed call succeeds exactly when the rules allow
  -- it, and it then leaves a storage that shows the board that the rules give. The rules know of a
  -- market only its listing and its ballot, in which the order of the votes is forgotten.
  pub dispatch-ruled :
      (who : AccountId) (call : PalletCall) (s : Storage L)
      → shown (dispatch c (signed who) call s) ≡ ruled who call s
  unfolding dispatch
  dispatch-ruled who call s = elim (Option-cases (ruled who call s)) [
    | inl refused ↦ elim (Result-cases (dispatch c (signed who) call s).0) [
      | inl fine ↦
          let h = (dispatch-ok_iff c (signed who) call s).0 fine in
          shown-layer (run_call c (signed who) call s) s ∙ shown-of_Accepts who call s h
      | inr (e, failed) ↦ shown-err _ e failed ∙ sym refused
    ]
    | inr (b, allowed) ↦
        let h = Accepts-of_ruled who call s b allowed in
        shown-layer (run_call c (signed who) call s) s ∙ shown-of_Accepts who call s h
  ]
