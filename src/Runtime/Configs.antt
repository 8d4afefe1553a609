-- ===== src/Runtime/Configs.antt =====
-- The configuration of the pallets (runtime/src/configs/mod.rs): of each `impl Config for Runtime`
-- the associated types that are numbers, parameters or pallets of this runtime. Those that name a
-- type of a library are left out.
use subtrate.Base.{ℕ, ◌*◌, Bool, true, List, [], ◌∷◌}
use subtrate.Runtime.Constants.{existential_deposit, slot_duration, period, max_invulnerables}
use subtrate.Runtime.Weights.{RefTime, RuntimeDbWeight, rocks_db_weight}
use subtrate.Runtime.Version.{RuntimeVersion, version}
use subtrate.Runtime.Limits.{LimitApi, BlockWeights, maximum_block_weight, normal_dispatch_ratio}
use subtrate.Runtime.Xcm.Weighing.{message_queue_service_weight}
use subtrate.Runtime.Pallets.{
  Pallet, system, aura, collator_selection, xcmp_queue, message_queue, parachain_system,
  parachain_info, balances, session,
}

pub record SystemConfig (W L A : Type 0) : Type 0 where
  pub block_hash_count : ℕ
  pub version : RuntimeVersion A
  pub db_weight : RuntimeDbWeight
  pub block_weights : BlockWeights W
  pub block_length : L
  pub ss58_prefix : ℕ
  pub max_consumers : ℕ

-- Over the `BlockHashCount` of polkadot-runtime-common, the versions of the APIs,
-- `RuntimeBlockWeights`, and `BlockLength::max_with_normal_ratio`, whose ratio is a percentage.
unfoldable pub system_config :
    {W L A : Type 0} → RefTime → ℕ → A → BlockWeights W → (ℕ → ℕ → L) → SystemConfig W L A
system_config t block_hash_count api_versions block_weights max_with_normal_ratio = record {
  block_hash_count = block_hash_count;
  version = version api_versions;
  db_weight = rocks_db_weight t;
  block_weights = block_weights;
  block_length = max_with_normal_ratio (5 * 1024 * 1024) normal_dispatch_ratio;
  ss58_prefix = 42;
  max_consumers = 16;
}

pub record TimestampConfig : Type 0 where
  pub on_timestamp_set : Pallet
  pub minimum_period : ℕ

unfoldable pub timestamp_config : TimestampConfig
timestamp_config = record { on_timestamp_set = aura; minimum_period = 0 }

pub record AuthorshipConfig : Type 0 where
  -- the source of the index of `FindAccountFromAuthorIndex`
  pub find_author : Pallet
  pub event_handler : List Pallet

unfoldable pub authorship_config : AuthorshipConfig
authorship_config = record { find_author = aura; event_handler = collator_selection ∷ [] }

pub record BalancesConfig : Type 0 where
  pub max_locks : ℕ
  pub existential_deposit : ℕ
  pub account_store : Pallet
  pub max_reserves : ℕ
  -- the bytes of a `ReserveIdentifier`
  pub reserve_identifier : ℕ
  pub max_freezes : ℕ

-- Over the number of variants of `RuntimeFreezeReason`.
unfoldable pub balances_config : ℕ → BalancesConfig
balances_config freeze_reasons = record {
  max_locks = 50;
  existential_deposit = existential_deposit;
  account_store = system;
  max_reserves = 50;
  reserve_identifier = 8;
  max_freezes = freeze_reasons;
}

pub record ParachainSystemConfig (W : Type 0) : Type 0 where
  pub self_para_id : Pallet
  pub outbound_xcmp_message_source : Pallet
  pub reserved_dmp_weight : W
  pub xcmp_message_handler : Pallet
  pub reserved_xcmp_weight : W

module _ {W : Type 0} (w : LimitApi W) (saturating_div : W → ℕ → W) where
  unfoldable pub reserved_xcmp_weight : W
  reserved_xcmp_weight = saturating_div (maximum_block_weight w) 4

  unfoldable pub reserved_dmp_weight : W
  reserved_dmp_weight = saturating_div (maximum_block_weight w) 4

  unfoldable pub parachain_system_config : ParachainSystemConfig W
  unfolding reserved_xcmp_weight reserved_dmp_weight
  parachain_system_config = record {
    self_para_id = parachain_info;
    outbound_xcmp_message_source = xcmp_queue;
    reserved_dmp_weight = reserved_dmp_weight;
    xcmp_message_handler = xcmp_queue;
    reserved_xcmp_weight = reserved_xcmp_weight;
  }

pub record MessageQueueConfig (W : Type 0) : Type 0 where
  pub queue_change_handler : Pallet
  pub queue_paused_query : Pallet
  pub heap_size : ℕ
  pub max_stale : ℕ
  pub service_weight : W

unfoldable pub message_queue_config :
    {W : Type 0} → LimitApi W → BlockWeights W → MessageQueueConfig W
message_queue_config w limits = record {
  queue_change_handler = xcmp_queue;
  queue_paused_query = xcmp_queue;
  heap_size = 103 * 1024;
  max_stale = 8;
  service_weight = message_queue_service_weight w limits;
}

pub record XcmpQueueConfig : Type 0 where
  pub channel_info : Pallet
  pub xcmp_queue : Pallet
  pub max_inbound_suspended : ℕ
  pub max_active_outbound_channels : ℕ
  pub max_page_size : ℕ

unfoldable pub xcmp_queue_config : XcmpQueueConfig
xcmp_queue_config = record {
  channel_info = parachain_system;
  xcmp_queue = message_queue;
  max_inbound_suspended = 1000;
  max_active_outbound_channels = 128;
  max_page_size = 65536;  -- `1 << 16`
}

pub record SessionConfig (Q : Type 0) : Type 0 where
  pub should_end_session : Q
  pub next_session_rotation : Q
  pub session_manager : Pallet

abbrev pub offset : ℕ
offset = 0

-- Over `PeriodicSessions`.
unfoldable pub session_config : {Q : Type 0} → (ℕ → ℕ → Q) → SessionConfig Q
session_config periodic_sessions = record {
  should_end_session = periodic_sessions period offset;
  next_session_rotation = periodic_sessions period offset;
  session_manager = collator_selection;
}

pub record AuraConfig : Type 0 where
  pub max_authorities : ℕ
  pub allow_multiple_blocks_per_slot : Bool
  pub slot_duration : ℕ

unfoldable pub aura_config : AuraConfig
aura_config = record {
  max_authorities = 100000;
  allow_multiple_blocks_per_slot = true;
  slot_duration = slot_duration;
}

pub record CollatorSelectionConfig : Type 0 where
  pub currency : Pallet
  pub pot_id : List ℕ
  pub max_candidates : ℕ
  pub min_eligible_collators : ℕ
  pub max_invulnerables : ℕ
  pub kick_threshold : ℕ
  pub validator_registration : Pallet

-- `*b"PotStake"`
abbrev pub pot_id : List ℕ
pot_id = 80 ∷ 111 ∷ 116 ∷ 83 ∷ 116 ∷ 97 ∷ 107 ∷ 101 ∷ []

unfoldable pub collator_selection_config : CollatorSelectionConfig
collator_selection_config = record {
  currency = balances;
  pot_id = pot_id;
  max_candidates = 100;
  min_eligible_collators = 4;
  max_invulnerables = max_invulnerables;
  kick_threshold = period;
  validator_registration = session;
}
