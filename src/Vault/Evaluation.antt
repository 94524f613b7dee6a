-- ===== src/Vault/Evaluation.antt =====
-- A test that computes names `evaluation`, which opens every definition of the vault.
use tezoro_yield_aggregator.Base.{Bool, true}
use tezoro_yield_aggregator.Base.Int.{◌+ℤ◌, ◌*ℤ◌, ◌/ℤ◌, ◌-ℤ◌}
use tezoro_yield_aggregator.Base.Map.{lookup, insert, erase}
use tezoro_yield_aggregator.Base.Words
use tezoro_yield_aggregator.Vault.Store.{contains}
use tezoro_yield_aggregator.Vault.Assets
use tezoro_yield_aggregator.Vault.Shares
use tezoro_yield_aggregator.Vault.Redeem
use tezoro_yield_aggregator.Vault.Strategies
use tezoro_yield_aggregator.Vault.Fees
use tezoro_yield_aggregator.Vault.Admin
use tezoro_yield_aggregator.Vault.Upgrade
use tezoro_yield_aggregator.Vault.Calls.{invoke}
use tezoro_yield_aggregator.Vault.Fixture.{move}

unfoldable pub evaluation : Bool
unfolding ◌+ℤ◌ ◌*ℤ◌ ◌/ℤ◌ ◌-ℤ◌ lookup insert erase contains Words.add Words.sub Words.mul Words.div
    Words.add_u64 Assets.effective_bridged_balance Assets.sum_tracked Assets.idle_balance
    Assets.total_assets Assets.mul_div Assets.pro_rata Assets.convert_to_shares
    Assets.convert_to_assets Shares.cap_exceeded Shares.transfer Shares.deposit Redeem.tracked_after
    Redeem.remaining_after Redeem.untrack Redeem.burn Redeem.pull Redeem.pull_from Redeem.waterfall
    Redeem.cover Redeem.redeem Strategies.without Strategies.add_strategy Strategies.remove_strategy
    Strategies.attest_bridged_balance Strategies.update_tracked_balance Strategies.allocate
    Strategies.deallocate Strategies.emergency_withdraw_strategy Fees.collect_fees Admin.initialize
    Admin.pause Admin.unpause Admin.set_deposit_cap Admin.set_keeper Admin.set_guardian
    Admin.propose_admin Admin.accept_admin Admin.set_bridged_max_age Upgrade.set_upgrade_delay
    Upgrade.schedule_upgrade Upgrade.execute_upgrade Upgrade.cancel_upgrade invoke move
evaluation = true
