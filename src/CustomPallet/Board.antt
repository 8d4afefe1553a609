-- ===== src/CustomPallet/Board.antt =====
-- What the market pallet (pallets/custom-pallet/src/lib.rs) promises, without the way it stores it:
-- markets that have no counters of their own, each with the ballot of its votes, in no order.
use mathlib.Core.Quot
use mathlib.Core.Quot.{Quot, Quot-set}
use native.Mathlib.Nat.{ℕ_set}
use subtrate.Base.{
  ℕ, ◌+◌, ◌-◌, ◌*◌, ◌/◌, ◌≡◌, Bool, true, false, not, Option, none, some, List, [], ◌∷◌, ◌++◌,
  arith, ◌==◌, ◌&&◌, ltb, leb, bool_eq, if◌then◌else◌, length, count_if, saturating_add, u32_max,
  refl,
}
use subtrate.Frame.Dispatch.{AccountId}
use subtrate.CustomPallet.Types.{Meme, max_metadata_len, max_cid_len, max_memes}
use subtrate.CustomPallet.Calls.{
  PalletCall, create_market_call, vote_call, release_rewards_call, create_meme_call,
}
pub mod Refines
pub mod Paid

-- Two lists hold the same votes, as often.
abbrev pub SameVotes : List (AccountId × Bool) → List (AccountId × Bool) → Type 0
SameVotes xs ys = (p : AccountId × Bool → Bool) → count_if p xs ≡ count_if p ys

abbrev pub Ballot : Type 0
Ballot = Quot SameVotes

-- How many votes of a ballot satisfy a test.
unfoldable pub tally : (AccountId × Bool → Bool) → Ballot → ℕ
tally p = Quot.lift ℕ_set (count_if p) (λ xs ys h. h p)

pub SameVotes-cons :
    (e : AccountId × Bool) (xs ys : List (AccountId × Bool))
    → SameVotes xs ys
    → SameVotes (e ∷ xs) (e ∷ ys)
SameVotes-cons e xs ys h p = ground (arith, h p)

unfoldable pub cast : AccountId → Bool → Ballot → Ballot
cast who y =
    Quot.lift Quot-set (λ xs. Quot.mk ((who, y) ∷ xs))
      (λ xs ys h. Quot.sound (SameVotes-cons (who, y) xs ys h))

abbrev pub by : AccountId → AccountId × Bool → Bool
by who e = e.0 == who

abbrev pub for : Bool → AccountId × Bool → Bool
for y e = bool_eq e.1 y

-- A market as the public knows it; its votes are on its ballot.
pub record Listing : Type 0 where
  pub creator : AccountId
  pub end_block : ℕ
  pub is_active : Bool
  pub metadata : List ℕ
  pub memes : List Meme

pub record Board : Type 0 where
  pub listing : ℕ → Option Listing
  pub ballot : ℕ → Ballot
  pub next : ℕ

-- A function changed at one number.
abbrev pub set_at : {X : Type 0} → ℕ → X → (ℕ → X) → ℕ → X
set_at m x f i = if m == i then x else f i

abbrev pub opened : ℕ → AccountId → ℕ → List ℕ → Board → Board
opened duration who now bytes b = record {
  listing =
      set_at b.next
        (some (record {
          creator = who;
          end_block = saturating_add u32_max now duration;
          is_active = true;
          metadata = bytes;
          memes = [];
        }))
        b.listing;
  ballot = b.ballot;
  next = saturating_add u32_max b.next 1;
}

abbrev pub amended : ℕ → Listing → Board → Board
amended m k b = record { listing = set_at m (some k) b.listing; ballot = b.ballot; next = b.next }

abbrev pub voted : ℕ → AccountId → Bool → Board → Board
voted m who y b = record {
  listing = b.listing;
  ballot = set_at m (cast who y (b.ballot m)) b.ballot;
  next = b.next;
}

abbrev pub meme_by : AccountId → ℕ → List ℕ → Meme
meme_by who m cid = record { creator = who; cid = cid; meme_template = m }

-- The rules, for a market that is listed.
abbrev pub may_vote : ℕ → AccountId → Bool → Listing → Ballot → Bool
may_vote now who paid k votes =
    k.is_active && leb now k.end_block && (tally (by who) votes == 0) && paid

abbrev pub may_close : ℕ → Listing → Bool
may_close now k = k.is_active && ltb k.end_block now

abbrev pub may_add : List ℕ → Listing → Bool
may_add cid k = k.is_active && leb (length cid) max_cid_len && ltb (length k.memes) max_memes

-- A change of a listed market, if the rules allow it.
abbrev pub judged : Option Listing → (Listing → Bool) → (Listing → Board) → Option Board
judged none may next = none
judged (some k) may next = if may k then some (next k) else none

-- The board after a call by `who` in the block `now`, if the rules allow it; `paid` says whether
-- the cost of a vote can be moved.
abbrev pub rule : ℕ → AccountId → ℕ → Bool → PalletCall → Board → Option Board
rule duration who now paid (create_market_call bytes) b =
    if leb (length bytes) max_metadata_len then some (opened duration who now bytes b) else none
rule duration who now paid (vote_call m y) b =
    judged (b.listing m) (λ k. may_vote now who paid k (b.ballot m)) (λ k. voted m who y b)
rule duration who now paid (release_rewards_call m) b =
    judged (b.listing m) (may_close now) (λ k. amended m (record k { is_active = false }) b)
rule duration who now paid (create_meme_call m cid) b =
    judged (b.listing m) (may_add cid)
      (λ k. amended m (record k { memes = k.memes ++ meme_by who m cid ∷ [] }) b)

-- What a ballot is worth, at the cost of a vote and the percentage for the creator: a tie counts
-- as "no", and the share is rounded down.
abbrev pub decides : Ballot → Bool
decides votes = ltb (tally (for false) votes) (tally (for true) votes)

abbrev pub stake : ℕ → Ballot → ℕ
stake cost votes = (tally (for true) votes + tally (for false) votes) * cost

abbrev pub share : ℕ → ℕ → Ballot → ℕ
share cost percentage votes =
    (stake cost votes - stake cost votes * percentage / 100) / tally (for (decides votes)) votes

abbrev pub due_to : ℕ → ℕ → AccountId → Ballot → ℕ
due_to cost percentage who votes =
    tally (λ e. by who e && for (decides votes) e) votes * share cost percentage votes
