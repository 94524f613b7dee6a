-- ===== src/Vault/Soundness.antt =====
-- The invariant of the vault's storage.
use tezoro_yield_aggregator.Base.{◌≤◌, ◌≡◌, false}
use tezoro_yield_aggregator.Base.Int.{pos, ◌≤ℤ◌}
use tezoro_yield_aggregator.Base.Map.{sum, IsNonneg}
use tezoro_yield_aggregator.Vault.State.{Storage}
use tezoro_yield_aggregator.Vault.Store.{
  is_initialized, get_total_supply, get_strategies, get_performance_fee_bps, get_idle_buffer_bps,
  get_deposit_cap, get_upgrade_delay, get_bridged_balance,
}
use tezoro_yield_aggregator.Vault.Strategies.{length, max_strategy_count}
use tezoro_yield_aggregator.Vault.Strategies.Lists.{IsDistinct}
use tezoro_yield_aggregator.Vault.Admin.{max_performance_fee_bps, max_idle_buffer_bps}
use tezoro_yield_aggregator.Vault.Upgrade.{min_upgrade_delay}

-- No holder's balance is negative, and the balances add up to the supply.
pub record IsBacked (s : Storage) : Type 0 where
  pub nonneg : IsNonneg s.share_balance
  pub backed : sum s.share_balance ≡ get_total_supply s

-- The list of strategies has no repetition and respects its limit; no tracked balance, and no
-- attestation, is negative.
pub record IsTracked (s : Storage) : Type 0 where
  pub nonneg : IsNonneg s.tracked_balance
  pub distinct : IsDistinct (get_strategies s)
  pub bounded : length (get_strategies s) ≤ max_strategy_count
  pub bridged_nonneg : pos 0 ≤ℤ get_bridged_balance s

-- The settings are within their limits.
pub record IsConfigured (s : Storage) : Type 0 where
  pub cap_nonneg : pos 0 ≤ℤ get_deposit_cap s
  pub fee_bounded : get_performance_fee_bps s ≤ max_performance_fee_bps
  pub buffer_bounded : get_idle_buffer_bps s ≤ max_idle_buffer_bps
  pub delay_bounded : min_upgrade_delay ≤ get_upgrade_delay s

-- Before `initialize` there are no shares.
pub record IsSound (s : Storage) : Type 0 where
  pub backed : IsBacked s
  pub tracked : IsTracked s
  pub configured : IsConfigured s
  pub fresh : is_initialized s ≡ false → get_total_supply s ≡ pos 0
