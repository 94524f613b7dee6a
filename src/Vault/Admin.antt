-- ===== src/Vault/Admin.antt =====
-- `initialize` and the administration of the vault, in
-- contracts/contracts/tezoro-vault/src/lib.rs.
use tezoro_yield_aggregator.Base.{
  ℕ, Bool, true, false, not, leb, ◌==◌, Option, none, some, [], String,
}
use tezoro_yield_aggregator.Base.Int.{ℤ, pos, leb_ℤ}
use tezoro_yield_aggregator.Base.Map.{Address}
use tezoro_yield_aggregator.Base.Outcome.{ok}
use tezoro_yield_aggregator.Vault.State.{
  Event, already_initialized, invalid_bps, invalid_balance, no_pending_admin,
}
use tezoro_yield_aggregator.Vault.Monad.{
  M, ◌>>=◌, ◌>>◌, require, reads, modify, publish, require_auth,
}
use tezoro_yield_aggregator.Vault.Store
use tezoro_yield_aggregator.Vault.Guards.{require_admin, require_admin_or_guardian}

abbrev pub max_performance_fee_bps : ℕ
max_performance_fee_bps = 3_000

abbrev pub max_idle_buffer_bps : ℕ
max_idle_buffer_bps = 2_000

-- The arguments of `initialize` after `admin`.
pub record Config : Type 0 where
  pub asset : Address
  pub keeper : Address
  pub guardian : Address
  pub fee_recipient : Address
  pub performance_fee_bps : ℕ
  pub idle_buffer_bps : ℕ
  pub name : String
  pub symbol : String

-- `Some(addr) if addr == caller`
abbrev pub is_pending : Address → Option Address → Bool
is_pending caller none = false
is_pending caller (some addr) = addr == caller

module _ {X : Type 0} where
  unfoldable pub initialize : Address → Config → M X (Unit {0})
  initialize admin c = do
    require_auth admin
    initialized ← reads (λ w. ok (Store.is_initialized w.storage))
    require (not initialized) already_initialized
    require (leb c.performance_fee_bps max_performance_fee_bps) invalid_bps
    require (leb c.idle_buffer_bps max_idle_buffer_bps) invalid_bps
    modify Store.set_initialized
    modify (Store.set_admin admin)
    modify (Store.set_keeper c.keeper)
    modify (Store.set_guardian c.guardian)
    modify (Store.set_asset c.asset)
    modify (Store.set_fee_recipient c.fee_recipient)
    modify (Store.set_performance_fee_bps c.performance_fee_bps)
    modify (Store.set_idle_buffer_bps c.idle_buffer_bps)
    modify (Store.set_paused false)
    modify (Store.set_deposit_cap (pos 0))
    modify (Store.set_strategies [])
    modify (Store.set_vault_name c.name)
    modify (Store.set_vault_symbol c.symbol)
    modify (Store.set_bridged_max_age Store.default_bridged_max_age)
    modify (Store.set_upgrade_delay Store.default_upgrade_delay)
    modify (Store.set_total_supply (pos 0))
    modify (Store.set_high_water_mark Store.nav_precision)
    modify (Store.set_bridged_balance (pos 0))
    modify (Store.set_bridged_timestamp 0)

  unfoldable pub pause : Address → M X (Unit {0})
  pause caller = do
    require_auth caller
    require_admin_or_guardian caller
    modify (Store.set_paused true)
    publish (Event.pause caller)

  unfoldable pub unpause : Address → M X (Unit {0})
  unpause caller = do
    require_auth caller
    require_admin caller
    modify (Store.set_paused false)
    publish (Event.unpause caller)

  unfoldable pub set_deposit_cap : Address → ℤ → M X (Unit {0})
  set_deposit_cap caller cap = do
    require_auth caller
    require_admin caller
    require (leb_ℤ (pos 0) cap) invalid_balance
    modify (Store.set_deposit_cap cap)
    publish (Event.deposit_cap cap)

  unfoldable pub set_keeper : Address → Address → M X (Unit {0})
  set_keeper caller new_keeper = do
    require_auth caller
    require_admin caller
    modify (Store.set_keeper new_keeper)
    publish (Event.set_role "keeper" new_keeper)

  unfoldable pub set_guardian : Address → Address → M X (Unit {0})
  set_guardian caller new_guardian = do
    require_auth caller
    require_admin caller
    modify (Store.set_guardian new_guardian)
    publish (Event.set_role "guardian" new_guardian)

  unfoldable pub propose_admin : Address → Address → M X (Unit {0})
  propose_admin caller new_admin = do
    require_auth caller
    require_admin caller
    modify (Store.set_pending_admin new_admin)
    publish (Event.admin_proposed caller new_admin)

  unfoldable pub accept_admin : Address → M X (Unit {0})
  accept_admin caller = do
    require_auth caller
    pending ← reads (λ w. ok (Store.get_pending_admin w.storage))
    require (is_pending caller pending) no_pending_admin
    modify (Store.set_admin caller)
    modify Store.clear_pending_admin
    publish (Event.admin_accepted caller)

  unfoldable pub set_bridged_max_age : Address → ℕ → M X (Unit {0})
  set_bridged_max_age caller max_age = do
    require_auth caller
    require_admin caller
    modify (Store.set_bridged_max_age max_age)
