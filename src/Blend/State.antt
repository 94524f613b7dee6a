-- ===== src/Blend/State.antt =====
-- contracts/contracts/blend-strategy/src/storage.rs and events.rs.
use tezoro_yield_aggregator.Base.{ℕ, Bool, false, true, Option, none, some, String}
use tezoro_yield_aggregator.Base.Int.{ℤ, pos}
use tezoro_yield_aggregator.Base.Map.{Address}
use tezoro_yield_aggregator.Base.Outcome.{Outcome, unwrap, unwrap_or}
use tezoro_yield_aggregator.Common.{StrategyError, Hash}

abbrev pub default_max_utilization_bps : ℕ
default_max_utilization_bps = 9_500

abbrev pub default_min_backstop_bps : ℕ
default_min_backstop_bps = 500

abbrev pub default_approval_buffer : ℕ
default_approval_buffer = 200

abbrev pub default_upgrade_delay : ℕ
default_upgrade_delay = 172_800

abbrev pub min_upgrade_delay : ℕ
min_upgrade_delay = 3_600

-- An entry for each `DataKey`.
pub record Storage : Type 0 where
  pub initialized : Option Bool
  pub admin : Option Address
  pub pending_admin : Option Address
  pub vault : Option Address
  pub asset : Option Address
  pub blend_pool : Option Address
  pub paused : Option Bool
  pub tracked_balance : Option ℤ
  pub max_utilization_bps : Option ℕ
  pub min_backstop_bps : Option ℕ
  pub approval_buffer : Option ℕ
  pub upgrade_delay : Option ℕ
  pub scheduled_upgrade_hash : Option Hash
  pub scheduled_upgrade_at : Option ℕ

pub data Event : Type 0 where
  deposit : ℤ → Event
  withdraw : ℤ → ℤ → Event
  emergency_withdraw : ℤ → Address → Event
  pause unpause : Address → Event
  config_update : String → ℕ → Event
  admin_changed vault_changed : Address → Address → Event
  upgrade : Hash → Event

abbrev pub get_admin : Storage → Outcome StrategyError Address
get_admin s = unwrap s.admin

abbrev pub get_pending_admin : Storage → Option Address
get_pending_admin s = s.pending_admin

abbrev pub get_vault : Storage → Outcome StrategyError Address
get_vault s = unwrap s.vault

abbrev pub get_asset : Storage → Outcome StrategyError Address
get_asset s = unwrap s.asset

abbrev pub get_blend_pool : Storage → Outcome StrategyError Address
get_blend_pool s = unwrap s.blend_pool

abbrev pub is_paused : Storage → Bool
is_paused s = unwrap_or s.paused false

abbrev pub get_tracked_balance : Storage → ℤ
get_tracked_balance s = unwrap_or s.tracked_balance (pos 0)

abbrev pub get_max_utilization_bps : Storage → ℕ
get_max_utilization_bps s = unwrap_or s.max_utilization_bps default_max_utilization_bps

abbrev pub get_min_backstop_bps : Storage → ℕ
get_min_backstop_bps s = unwrap_or s.min_backstop_bps default_min_backstop_bps

abbrev pub get_approval_buffer : Storage → ℕ
get_approval_buffer s = unwrap_or s.approval_buffer default_approval_buffer

abbrev pub get_upgrade_delay : Storage → ℕ
get_upgrade_delay s = unwrap_or s.upgrade_delay default_upgrade_delay

abbrev pub is_initialized : Storage → Bool
is_initialized s = elim s.initialized [ none ↦ false | some _ ↦ true ]

abbrev pub get_scheduled_upgrade : Storage → Option (Hash × ℕ)
get_scheduled_upgrade s = elim s.scheduled_upgrade_hash [
  | none ↦ none
  | some h ↦ elim s.scheduled_upgrade_at [ none ↦ none | some t ↦ some (h, t) ]
]

abbrev pub set_initialized : Storage → Storage
set_initialized s = record s { initialized = some true }

abbrev pub set_admin : Address → Storage → Storage
set_admin v s = record s { admin = some v }

abbrev pub set_pending_admin : Address → Storage → Storage
set_pending_admin v s = record s { pending_admin = some v }

abbrev pub set_vault : Address → Storage → Storage
set_vault v s = record s { vault = some v }

abbrev pub set_asset : Address → Storage → Storage
set_asset v s = record s { asset = some v }

abbrev pub set_blend_pool : Address → Storage → Storage
set_blend_pool v s = record s { blend_pool = some v }

abbrev pub set_paused : Bool → Storage → Storage
set_paused v s = record s { paused = some v }

abbrev pub set_tracked_balance : ℤ → Storage → Storage
set_tracked_balance v s = record s { tracked_balance = some v }

abbrev pub set_max_utilization_bps : ℕ → Storage → Storage
set_max_utilization_bps v s = record s { max_utilization_bps = some v }

abbrev pub set_min_backstop_bps : ℕ → Storage → Storage
set_min_backstop_bps v s = record s { min_backstop_bps = some v }

abbrev pub set_approval_buffer : ℕ → Storage → Storage
set_approval_buffer v s = record s { approval_buffer = some v }

abbrev pub set_upgrade_delay : ℕ → Storage → Storage
set_upgrade_delay v s = record s { upgrade_delay = some v }

abbrev pub clear_pending_admin : Storage → Storage
clear_pending_admin s = record s { pending_admin = none }

abbrev pub set_scheduled_upgrade : Hash → ℕ → Storage → Storage
set_scheduled_upgrade hash at s = record s {
  scheduled_upgrade_hash = some hash;
  scheduled_upgrade_at = some at;
}

abbrev pub clear_scheduled_upgrade : Storage → Storage
clear_scheduled_upgrade s = record s { scheduled_upgrade_hash = none; scheduled_upgrade_at = none }
