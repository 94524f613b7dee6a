-- ===== src/Vault/State.antt =====
-- contracts/contracts/tezoro-vault/src: the errors, the storage and the state of a call.
use tezoro_yield_aggregator.Base.{ℕ, Bool, Option, List, String}
use tezoro_yield_aggregator.Base.Int.{ℤ}
use tezoro_yield_aggregator.Base.Map.{Address, Map}
use tezoro_yield_aggregator.Common.{Hash}

pub data VaultError : Type 0 where
  not_initialized already_initialized unauthorized paused zero_amount : VaultError
  insufficient_shares insufficient_assets deposit_cap_exceeded max_strategies : VaultError
  strategy_already_active strategy_not_active invalid_bps strategy_has_balance : VaultError
  no_pending_admin stale_attestation invalid_balance upgrade_not_scheduled : VaultError
  upgrade_too_early idle_buffer_violation no_fees_to_collect strategy_unhealthy : VaultError

-- An entry for each `DataKey`; `none` is an entry that was never written or was removed. The two
-- keys with an address are families of entries.
pub record Storage : Type 0 where
  pub admin : Option Address
  pub pending_admin : Option Address
  pub keeper : Option Address
  pub guardian : Option Address
  pub asset : Option Address
  pub initialized : Option Bool
  pub paused : Option Bool
  pub performance_fee_bps : Option ℕ
  pub fee_recipient : Option Address
  pub idle_buffer_bps : Option ℕ
  pub deposit_cap : Option ℤ
  pub strategy_list : Option (List Address)
  pub vault_name : Option String
  pub vault_symbol : Option String
  pub bridged_max_age : Option ℕ
  pub upgrade_delay : Option ℕ
  pub total_supply : Option ℤ
  pub high_water_mark : Option ℤ
  pub tracked_balance : Map ℤ
  pub share_balance : Map ℤ
  pub bridged_balance : Option ℤ
  pub bridged_timestamp : Option ℕ
  pub scheduled_upgrade_hash : Option Hash
  pub scheduled_upgrade_at : Option ℕ

pub data Event : Type 0 where
  deposit redeem : Address → ℤ → ℤ → Event
  transfer : Address → Address → ℤ → Event
  strategy_add strategy_remove pause unpause : Address → Event
  bridged_update : ℤ → ℕ → Event
  tracked_update : Address → ℤ → Event
  upgrade : Hash → Event
  set_role : String → Address → Event
  deposit_cap : ℤ → Event
  admin_proposed : Address → Address → Event
  admin_accepted : Address → Event
  allocate deallocate : Address → ℤ → Event
  upgrade_scheduled : Hash → ℕ → Event
  upgrade_cancelled : Event
  fees_collected : ℤ → ℤ → Event

-- What a call of the vault runs in: its storage, the events so far (the newest first), the code
-- that the contract runs, the other contracts, and of the ledger its time, the vault's own address
-- and the addresses whose authorisation the transaction carries.
pub record World (X : Type 0) : Type 0 where
  pub storage : Storage
  pub events : List Event
  pub wasm : Hash
  pub chain : X
  pub timestamp : ℕ
  pub self : Address
  pub authorized : Address → Bool
