-- ===== src/Runtime/Constants.antt =====
-- The constants of the runtime (runtime/src/lib.rs) and the parameter types of its configuration
-- (runtime/src/configs/mod.rs) that are numbers.
use subtrate.Base.{ℕ, ◌*◌, ◌/◌}

abbrev pub milli_secs_per_block : ℕ
milli_secs_per_block = 6000

abbrev pub slot_duration : ℕ
slot_duration = milli_secs_per_block

abbrev pub minutes : ℕ
minutes = 60000 / milli_secs_per_block

abbrev pub hours : ℕ
hours = minutes * 60

abbrev pub days : ℕ
days = hours * 24

abbrev pub unit : ℕ
unit = 1000000000000

abbrev pub milli_unit : ℕ
milli_unit = 1000000000

abbrev pub micro_unit : ℕ
micro_unit = 1000000

abbrev pub existential_deposit : ℕ
existential_deposit = milli_unit

abbrev pub unincluded_segment_capacity : ℕ
unincluded_segment_capacity = 3

abbrev pub block_processing_velocity : ℕ
block_processing_velocity = 1

abbrev pub relay_chain_slot_duration_millis : ℕ
relay_chain_slot_duration_millis = 6000

-- `TransactionByteFee`
abbrev pub transaction_byte_fee : ℕ
transaction_byte_fee = 10 * micro_unit

-- `Period` of the session pallet, also the `KickThreshold` of the collator selection.
abbrev pub period : ℕ
period = 6 * hours

-- `SessionLength`
abbrev pub session_length : ℕ
session_length = 6 * hours

-- `MaxInvulnerables` of the collator selection.
abbrev pub max_invulnerables : ℕ
max_invulnerables = 20
