-- ===== src/Vault/Store.antt =====
-- contracts/contracts/tezoro-vault/src/storage.rs. A getter applies `unwrap` or its default to the
-- entry, a setter writes the entry. Extending an entry's lifetime changes no value, and is left out.
use tezoro_yield_aggregator.Base.{
  ℕ, Bool, true, false, ◌||◌, Option, none, some, List, [], ◌∷◌, String, ◌==◌,
}
use tezoro_yield_aggregator.Base.Int.{ℤ, pos}
use tezoro_yield_aggregator.Base.Map.{Address, balance, insert, erase}
use tezoro_yield_aggregator.Base.Outcome.{Outcome, unwrap, unwrap_or}
use tezoro_yield_aggregator.Common.{Hash}
use tezoro_yield_aggregator.Vault.State.{Storage, VaultError}

abbrev pub default_bridged_max_age : ℕ
default_bridged_max_age = 86_400

abbrev pub default_upgrade_delay : ℕ
default_upgrade_delay = 172_800

abbrev pub nav_precision : ℤ
nav_precision = pos 10_000_000

abbrev pub get_admin : Storage → Outcome VaultError Address
get_admin s = unwrap s.admin

abbrev pub get_keeper : Storage → Outcome VaultError Address
get_keeper s = unwrap s.keeper

abbrev pub get_guardian : Storage → Outcome VaultError Address
get_guardian s = unwrap s.guardian

abbrev pub get_asset : Storage → Outcome VaultError Address
get_asset s = unwrap s.asset

abbrev pub get_fee_recipient : Storage → Outcome VaultError Address
get_fee_recipient s = unwrap s.fee_recipient

abbrev pub get_pending_admin : Storage → Option Address
get_pending_admin s = s.pending_admin

abbrev pub is_initialized : Storage → Bool
is_initialized s = elim s.initialized [ none ↦ false | some _ ↦ true ]

abbrev pub is_paused : Storage → Bool
is_paused s = unwrap_or s.paused false

abbrev pub get_performance_fee_bps : Storage → ℕ
get_performance_fee_bps s = unwrap_or s.performance_fee_bps 0

abbrev pub get_idle_buffer_bps : Storage → ℕ
get_idle_buffer_bps s = unwrap_or s.idle_buffer_bps 0

abbrev pub get_deposit_cap : Storage → ℤ
get_deposit_cap s = unwrap_or s.deposit_cap (pos 0)

abbrev pub get_strategies : Storage → List Address
get_strategies s = unwrap_or s.strategy_list []

abbrev pub get_vault_name : Storage → String
get_vault_name s = unwrap_or s.vault_name "Tezoro Vault"

abbrev pub get_vault_symbol : Storage → String
get_vault_symbol s = unwrap_or s.vault_symbol "tVAULT"

abbrev pub get_bridged_max_age : Storage → ℕ
get_bridged_max_age s = unwrap_or s.bridged_max_age default_bridged_max_age

abbrev pub get_upgrade_delay : Storage → ℕ
get_upgrade_delay s = unwrap_or s.upgrade_delay default_upgrade_delay

abbrev pub get_total_supply : Storage → ℤ
get_total_supply s = unwrap_or s.total_supply (pos 0)

abbrev pub get_high_water_mark : Storage → ℤ
get_high_water_mark s = unwrap_or s.high_water_mark nav_precision

abbrev pub get_bridged_balance : Storage → ℤ
get_bridged_balance s = unwrap_or s.bridged_balance (pos 0)

abbrev pub get_bridged_timestamp : Storage → ℕ
get_bridged_timestamp s = unwrap_or s.bridged_timestamp 0

abbrev pub get_share_balance : Storage → Address → ℤ
get_share_balance s account = balance account s.share_balance

abbrev pub get_tracked_balance : Storage → Address → ℤ
get_tracked_balance s strategy = balance strategy s.tracked_balance

abbrev pub get_scheduled_upgrade : Storage → Option (Hash × ℕ)
get_scheduled_upgrade s = elim s.scheduled_upgrade_hash [
  | none ↦ none
  | some h ↦ elim s.scheduled_upgrade_at [ none ↦ none | some t ↦ some (h, t) ]
]

-- The loop of `strategy_exists`.
unfoldable pub contains : Address → List Address → Bool
contains strategy [] = false
contains strategy (s ∷ strategies) = s == strategy || contains strategy strategies

abbrev pub strategy_exists : Storage → Address → Bool
strategy_exists s strategy = contains strategy (get_strategies s)

abbrev pub set_admin : Address → Storage → Storage
set_admin v s = record s { admin = some v }

abbrev pub set_pending_admin : Address → Storage → Storage
set_pending_admin v s = record s { pending_admin = some v }

abbrev pub set_keeper : Address → Storage → Storage
set_keeper v s = record s { keeper = some v }

abbrev pub set_guardian : Address → Storage → Storage
set_guardian v s = record s { guardian = some v }

abbrev pub set_asset : Address → Storage → Storage
set_asset v s = record s { asset = some v }

abbrev pub set_paused : Bool → Storage → Storage
set_paused v s = record s { paused = some v }

abbrev pub set_performance_fee_bps : ℕ → Storage → Storage
set_performance_fee_bps v s = record s { performance_fee_bps = some v }

abbrev pub set_fee_recipient : Address → Storage → Storage
set_fee_recipient v s = record s { fee_recipient = some v }

abbrev pub set_idle_buffer_bps : ℕ → Storage → Storage
set_idle_buffer_bps v s = record s { idle_buffer_bps = some v }

abbrev pub set_deposit_cap : ℤ → Storage → Storage
set_deposit_cap v s = record s { deposit_cap = some v }

abbrev pub set_strategies : List Address → Storage → Storage
set_strategies v s = record s { strategy_list = some v }

abbrev pub set_vault_name : String → Storage → Storage
set_vault_name v s = record s { vault_name = some v }

abbrev pub set_vault_symbol : String → Storage → Storage
set_vault_symbol v s = record s { vault_symbol = some v }

abbrev pub set_bridged_max_age : ℕ → Storage → Storage
set_bridged_max_age v s = record s { bridged_max_age = some v }

abbrev pub set_upgrade_delay : ℕ → Storage → Storage
set_upgrade_delay v s = record s { upgrade_delay = some v }

abbrev pub set_total_supply : ℤ → Storage → Storage
set_total_supply v s = record s { total_supply = some v }

abbrev pub set_high_water_mark : ℤ → Storage → Storage
set_high_water_mark v s = record s { high_water_mark = some v }

abbrev pub set_bridged_balance : ℤ → Storage → Storage
set_bridged_balance v s = record s { bridged_balance = some v }

abbrev pub set_bridged_timestamp : ℕ → Storage → Storage
set_bridged_timestamp v s = record s { bridged_timestamp = some v }

abbrev pub set_initialized : Storage → Storage
set_initialized s = record s { initialized = some true }

abbrev pub clear_pending_admin : Storage → Storage
clear_pending_admin s = record s { pending_admin = none }

abbrev pub set_share_balance : Address → ℤ → Storage → Storage
set_share_balance account amount s = record s {
  share_balance = insert account amount s.share_balance;
}

abbrev pub set_tracked_balance : Address → ℤ → Storage → Storage
set_tracked_balance strategy amount s = record s {
  tracked_balance = insert strategy amount s.tracked_balance;
}

abbrev pub remove_tracked_balance : Address → Storage → Storage
remove_tracked_balance strategy s = record s { tracked_balance = erase strategy s.tracked_balance }

abbrev pub set_scheduled_upgrade : Hash → ℕ → Storage → Storage
set_scheduled_upgrade hash at s = record s {
  scheduled_upgrade_hash = some hash;
  scheduled_upgrade_at = some at;
}

abbrev pub clear_scheduled_upgrade : Storage → Storage
clear_scheduled_upgrade s = record s { scheduled_upgrade_hash = none; scheduled_upgrade_at = none }
