-- ===== src/Blend/Tests/Upgrades.antt =====
-- The admin 1 schedules the code 8, lets 48 hours pass, and executes the upgrade.
use tezoro_yield_aggregator.Base.{◌+◌, ◌≤◌, ◌≡◌, refl, arith}
use tezoro_yield_aggregator.Base.Int.{ℤ}
use tezoro_yield_aggregator.Base.Map.{Map}
use tezoro_yield_aggregator.Base.Outcome.{ok}
use tezoro_yield_aggregator.Base.Words
use tezoro_yield_aggregator.Strategy.{Contract}
use tezoro_yield_aggregator.Blend.State.{Storage, Event, min_upgrade_delay}
use tezoro_yield_aggregator.Blend.Admin
use tezoro_yield_aggregator.Blend.Calls.{Call, run_call, Step, Runs}
use tezoro_yield_aggregator.Blend.Timelock.{adapter_notice}
use tezoro_yield_aggregator.Blend.Tests.{adapter, services, after, adapter-IsSound}

abbrev scheduled : Contract Storage Event (Map ℤ)
scheduled = after (run_call services (Call.schedule_upgrade 1 8) adapter)

abbrev later : Contract Storage Event (Map ℤ)
later = record scheduled {
  chain = scheduled.chain;
  timestamp = 173_800;
  sequence = 40_000;
  authorized = scheduled.authorized;
}

abbrev upgraded : Contract Storage Event (Map ℤ)
upgraded = after (run_call services (Call.execute_upgrade 1) later)

schedule_call : run_call services (Call.schedule_upgrade 1 8) adapter ≡ ok (tt, scheduled)
unfolding run_call Admin.schedule_upgrade
schedule_call = refl

execute_call : run_call services (Call.execute_upgrade 1) later ≡ ok (tt, upgraded)
unfolding run_call Admin.schedule_upgrade Admin.execute_upgrade Words.add_u64
execute_call = refl

scheduled_time : scheduled.timestamp ≤ 173_800
unfolding run_call Admin.schedule_upgrade
scheduled_time = omega arith

upgraded_wasm : upgraded.wasm ≡ 8
unfolding run_call Admin.schedule_upgrade Admin.execute_upgrade Words.add_u64
upgraded_wasm = refl

adapter_notice_example : adapter.timestamp + min_upgrade_delay ≤ upgraded.timestamp
adapter_notice_example =
    adapter_notice services adapter-IsSound refl
      (Runs.next
        (Runs.next (Runs.next Runs.here (Step.calls (Call.schedule_upgrade 1 8) schedule_call))
          (Step.passes scheduled.chain 173_800 40_000 scheduled.authorized scheduled_time))
        (Step.calls (Call.execute_upgrade 1) execute_call))
      (λ e. ground (arith, upgraded_wasm, e))
