-- ===== src/Vault/Fees.antt =====
-- `collect_fees` of contracts/contracts/tezoro-vault/src/lib.rs.
pub mod Effects
pub mod HighWater
pub mod Marks
use tezoro_yield_aggregator.Base.{not, ◌==◌}
use tezoro_yield_aggregator.Base.Int.{ℤ, pos, ltb_ℤ, eqb_ℤ}
use tezoro_yield_aggregator.Base.Outcome.{ok}
use tezoro_yield_aggregator.Base.Words
use tezoro_yield_aggregator.Common.{Chain, max_bps}
use tezoro_yield_aggregator.Vault.State.{Event, no_fees_to_collect}
use tezoro_yield_aggregator.Vault.Monad.{
  M, ◌>>=◌, ◌>>◌, pure, require, reads, lift, modify, publish,
}
use tezoro_yield_aggregator.Vault.Store.{
  get_total_supply, set_total_supply, get_high_water_mark, set_high_water_mark,
  get_performance_fee_bps, get_fee_recipient, nav_precision,
}
use tezoro_yield_aggregator.Vault.Guards.{require_initialized}
use tezoro_yield_aggregator.Vault.Assets.{total_assets, pro_rata, mul_div}
use tezoro_yield_aggregator.Vault.Shares.{mint}

module _ {X : Type 0} (h : Chain X) where
  unfoldable pub collect_fees : M X ℤ
  collect_fees = do
    require_initialized
    total_supply ← reads (λ w. ok (get_total_supply w.storage))
    require (not (eqb_ℤ total_supply (pos 0))) no_fees_to_collect
    total ← reads (total_assets h)
    current_nav ← lift (mul_div total nav_precision total_supply)
    hwm ← reads (λ w. ok (get_high_water_mark w.storage))
    require (ltb_ℤ hwm current_nav) no_fees_to_collect
    fee_bps ← reads (λ w. ok (get_performance_fee_bps w.storage))
    require (not (fee_bps == 0)) no_fees_to_collect
    hwm_assets ← lift (mul_div hwm total_supply nav_precision)
    total_yield ← lift (Words.sub total hwm_assets)
    fee_assets ← lift (mul_div total_yield (pos fee_bps) (pos max_bps))
    fee_shares ← lift (pro_rata fee_assets total_supply total)
    require (ltb_ℤ (pos 0) fee_shares) no_fees_to_collect
    recipient ← reads (λ w. get_fee_recipient w.storage)
    mint recipient fee_shares
    new_total_supply ← lift (Words.add total_supply fee_shares)
    modify (set_total_supply new_total_supply)
    new_hwm ← lift (mul_div total nav_precision new_total_supply)
    modify (set_high_water_mark new_hwm)
    publish (Event.fees_collected fee_shares new_hwm)
    pure fee_shares
