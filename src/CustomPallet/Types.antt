-- ===== src/CustomPallet/Types.antt =====
-- Configuration, storage, events and errors of the market pallet
-- (pallets/custom-pallet/src/lib.rs). Block numbers are `u32` and balances `u128`, as the runtime
-- has them. `BoundedVec` is a list; the bound is an invariant.
use subtrate.Base.{ℕ, Bool, List, ◌∷◌}
use subtrate.Frame.Dispatch.{AccountId, Action, modify}
use subtrate.Frame.StorageMap.{StorageMap}
use subtrate.Frame.StorageDoubleMap.{StorageDoubleMap}
use subtrate.Frame.Currency.{Currency}

abbrev pub max_metadata_len : ℕ
max_metadata_len = 256

abbrev pub max_cid_len : ℕ
max_cid_len = 256

abbrev pub max_memes : ℕ
max_memes = 100

pub record Meme : Type 0 where
  pub creator : AccountId
  pub cid : List ℕ  -- at most 256 bytes
  pub meme_template : ℕ

pub record Market : Type 0 where
  pub creator : AccountId
  pub end_block : ℕ
  pub yes_votes : ℕ
  pub no_votes : ℕ
  pub total_staked : ℕ
  pub is_active : Bool
  pub metadata : List ℕ  -- at most 256 bytes
  pub memes : List Meme  -- at most 100

pub data Event : Type 0 where
  -- market_id, creator, end_block, metadata
  market_created : ℕ → AccountId → ℕ → List ℕ → Event
  -- market_id, voter, vote
  vote_cast : ℕ → AccountId → Bool → Event
  -- market_id, creator, creator_reward
  rewards_distributed : ℕ → AccountId → ℕ → Event
  -- market_id, creator, cid, template_id
  meme_created : ℕ → AccountId → List ℕ → ℕ → Event

pub data Error : Type 0 where
  market_does_not_exist : Error
  market_not_active : Error
  market_still_active : Error
  already_voted : Error
  invalid_vote_cost : Error
  metadata_too_long : Error
  meme_list_full : Error
  invalid_cid : Error

-- The trait `Config`. `into_account_truncating` is the conversion of a `PalletId` into an account,
-- and `storage_order` the order, by key hashes, in which an iteration over a storage map lists the
-- entries: both are the libraries'.
pub record Config (L : Type 0) : Type 0 where
  pub currency : Currency L
  pub pallet_id : List ℕ
  pub vote_cost : ℕ
  pub creator_reward_percentage : ℕ
  pub market_duration : ℕ
  pub into_account_truncating : List ℕ → AccountId
  pub storage_order : List (AccountId × Bool) → List (AccountId × Bool)

-- The storage items, with the block number and the deposited events (newest first; FRAME keeps none
-- of block 0, which has no extrinsics) of the system pallet, and the currency's ledger.
pub record Storage (L : Type 0) : Type 0 where
  pub markets : StorageMap Market
  pub market_count : ℕ
  pub votes : StorageDoubleMap Bool
  pub events : List Event
  pub block_number : ℕ
  pub ledger : L

abbrev pub Call : Type 0 → Type 0 → Type 0
Call L A = Action (Storage L) Error A

abbrev pub deposit_event : {L : Type 0} → Event → Call L (Unit {0})
deposit_event e = modify (λ s. record s { events = e ∷ s.events })
