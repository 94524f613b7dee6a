-- ===== src/Vault/Tests/Invariants.antt =====
-- Histories on a concrete chain.
use tezoro_yield_aggregator.Base.{◌+◌, ◌≤◌, ◌≡◌, refl, true, arith}
use tezoro_yield_aggregator.Base.Int.{ℤ, pos, ◌+ℤ◌, ◌-ℤ◌, ◌≤ℤ◌}
use tezoro_yield_aggregator.Base.Map.{Map}
use tezoro_yield_aggregator.Base.Outcome.{ok}
use tezoro_yield_aggregator.Vault.State.{World}
use tezoro_yield_aggregator.Vault.Store.{get_share_balance, get_total_supply}
use tezoro_yield_aggregator.Vault.Shares.{transfer}
use tezoro_yield_aggregator.Vault.Shares.Transfers.{transfer_balances}
use tezoro_yield_aggregator.Vault.Soundness.{IsSound}
use tezoro_yield_aggregator.Vault.Calls.{Call, invoke, Step, Reach}
use tezoro_yield_aggregator.Vault.Evaluation.{evaluation}
use tezoro_yield_aggregator.Vault.Fixture.{plain, start, after}
use tezoro_yield_aggregator.Vault.Upgrade.{min_upgrade_delay}
use tezoro_yield_aggregator.Vault.Upgrade.Timelock.{Upgrades, invoke-Upgrades, upgrade_notice}
use tezoro_yield_aggregator.Vault.Access.Roles.{IsPermitted, invoke-IsPermitted}
use tezoro_yield_aggregator.Vault.Access.Succession.{Succeeds, invoke-Succeeds}
use tezoro_yield_aggregator.Vault.Invariant.Histories.{Reach-IsSound}

start-IsSound : IsSound start.storage
start-IsSound = ground arith

abbrev made : Call → World (Map ℤ) → World (Map ℤ)
made c w = after w (invoke plain c w)

abbrev deposited : World (Map ℤ)
deposited = made (Call.deposit 10 (pos 3_000)) start

abbrev shared : World (Map ℤ)
shared = made (Call.transfer 10 11 (pos 500)) deposited

deposit_call : invoke plain (Call.deposit 10 (pos 3_000)) start ≡ ok (tt, deposited)
unfolding evaluation
deposit_call = refl

transfer_call : invoke plain (Call.transfer 10 11 (pos 500)) deposited ≡ ok (tt, shared)
unfolding evaluation
transfer_call = refl

Reach-IsSound_example : IsSound shared.storage
Reach-IsSound_example = Reach-IsSound plain start-IsSound (
    Reach.next (Reach.next Reach.here (Step.calls (Call.deposit 10 (pos 3_000)) deposit_call))
      (Step.calls (Call.transfer 10 11 (pos 500)) transfer_call))

invoke-IsPermitted_example : IsPermitted (Call.transfer 10 11 (pos 500)) deposited
invoke-IsPermitted_example =
    invoke-IsPermitted plain (Call.transfer 10 11 (pos 500)) deposited transfer_call

-- The admin schedules the code 8, lets 48 hours pass, and executes the upgrade.
abbrev scheduled : World (Map ℤ)
scheduled = made (Call.schedule_upgrade 1 8) start

abbrev later : World (Map ℤ)
later = record scheduled {
  chain = scheduled.chain;
  timestamp = 173_800;
  authorized = scheduled.authorized;
}

abbrev upgraded : World (Map ℤ)
upgraded = made (Call.execute_upgrade 1) later

schedule_call : invoke plain (Call.schedule_upgrade 1 8) start ≡ ok (tt, scheduled)
unfolding evaluation
schedule_call = refl

execute_call : invoke plain (Call.execute_upgrade 1) later ≡ ok (tt, upgraded)
unfolding evaluation
execute_call = refl

scheduled_time : scheduled.timestamp ≤ 173_800
unfolding evaluation
scheduled_time = omega arith

upgraded_wasm : upgraded.wasm ≡ 8
unfolding evaluation
upgraded_wasm = refl

upgrade_notice_example : start.timestamp + min_upgrade_delay ≤ upgraded.timestamp
upgrade_notice_example =
    upgrade_notice plain start-IsSound refl
      (Reach.next
        (Reach.next (Reach.next Reach.here (Step.calls (Call.schedule_upgrade 1 8) schedule_call))
          (Step.passes scheduled.chain 173_800 scheduled.authorized scheduled_time))
        (Step.calls (Call.execute_upgrade 1) execute_call))
      (λ e. ground (arith, upgraded_wasm, e))

invoke-Upgrades_example : Upgrades (Call.execute_upgrade 1) later upgraded
invoke-Upgrades_example = invoke-Upgrades plain (Call.execute_upgrade 1) later execute_call

abbrev proposed : World (Map ℤ)
proposed = made (Call.propose_admin 1 5) start

abbrev accepted : World (Map ℤ)
accepted = made (Call.accept_admin 5) proposed

accept_call : invoke plain (Call.accept_admin 5) proposed ≡ ok (tt, accepted)
unfolding evaluation
accept_call = refl

invoke-Succeeds_example : Succeeds (Call.accept_admin 5) proposed accepted
invoke-Succeeds_example = invoke-Succeeds plain (Call.accept_admin 5) proposed accept_call

transfer_run : transfer 10 11 (pos 500) deposited ≡ ok (tt, shared)
unfolding evaluation
transfer_run = refl

transfer_balances_example :
    (deposited.authorized 10 ≡ true)
    × (pos 1 ≤ℤ pos 500)
    × (pos 500 ≤ℤ get_share_balance deposited.storage 10)
    × (get_total_supply shared.storage ≡ get_total_supply deposited.storage)
    × (get_share_balance shared.storage 11
        ≡ get_share_balance deposited.storage 11 -ℤ pos 0 +ℤ pos 500)
transfer_balances_example = transfer_balances 10 11 11 (pos 500) deposited transfer_run
