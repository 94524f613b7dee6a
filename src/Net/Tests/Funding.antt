-- ===== src/Net/Tests/Funding.antt =====
-- Funds that move into mock strategies and back.
use tezoro_yield_aggregator.Base.{◌≡◌, refl, [], ◌∷◌, arith}
use tezoro_yield_aggregator.Base.Int.{pos, ◌+ℤ◌, ◌-ℤ◌}
use tezoro_yield_aggregator.Base.Map.{lookup}
use tezoro_yield_aggregator.Base.Outcome.{ok}
use tezoro_yield_aggregator.Mock
use tezoro_yield_aggregator.Net.{Net, net_chain}
use tezoro_yield_aggregator.Net.Promises.{recorded}
use tezoro_yield_aggregator.Net.Funding.{deallocate-allocate}
use tezoro_yield_aggregator.Vault.{World}
use tezoro_yield_aggregator.Vault.Store.{get_strategies, get_tracked_balance, contains}
use tezoro_yield_aggregator.Vault.Assets.{total_assets}
use tezoro_yield_aggregator.Vault.Evaluation.{evaluation}
use tezoro_yield_aggregator.Vault.Strategies.{allocate, deallocate, emergency_withdraw_strategy}
use tezoro_yield_aggregator.Vault.Strategies.Lists.{IsDistinct}
use tezoro_yield_aggregator.Vault.Pricing.Deallocation.{deallocate_total, emergency_withdraw_total}
use tezoro_yield_aggregator.Vault.Fixture
use tezoro_yield_aggregator.Vault.Fixture.{running, world_of}
use tezoro_yield_aggregator.Net.Tests.{
  Purse, purse, purse_pays, mock_of, spread, net, spread_world, first_mock,
}

-- The keeper 2 takes 400 back from the strategy 50.
abbrev returned : World (Net Mock.Storage Purse)
returned = Fixture.after spread_world (deallocate (net_chain purse 100) 2 50 (pos 400) spread_world)

spread_total : total_assets (net_chain purse 100) spread_world ≡ ok (pos 3_000)
unfolding evaluation
spread_total = refl

deallocate_run :
    deallocate (net_chain purse 100) 2 50 (pos 400) spread_world ≡ ok (pos 400, returned)
unfolding evaluation Mock.withdraw
deallocate_run = refl

returned_total : total_assets (net_chain purse 100) returned ≡ ok (pos 3_000)
unfolding evaluation Mock.withdraw
returned_total = refl

returned_paid : pos (returned.chain.outside 100) ≡ pos 1_000 +ℤ pos 400
unfolding evaluation Mock.withdraw
returned_paid = refl

spread-IsDistinct : IsDistinct (get_strategies spread)
unfolding evaluation
spread-IsDistinct = ground arith

deallocate_total_example : pos 3_000 ≡ pos 3_000 +ℤ pos 0
unfolding lookup
deallocate_total_example =
    deallocate_total (net_chain purse 100) 2 50 9 (pos 400) spread_world spread-IsDistinct
      returned_paid refl spread_total deallocate_run returned_total

-- The guardian 3 takes back all of a strategy that has lost 300 of what the vault records.
abbrev lossy : World (Net Mock.Storage Purse)
lossy = record spread_world { chain = record net { contracts = (51, mock_of (pos 200)) ∷ [] } }

abbrev rescued : World (Net Mock.Storage Purse)
rescued = Fixture.after lossy (emergency_withdraw_strategy (net_chain purse 100) 3 51 lossy)

lossy_total : total_assets (net_chain purse 100) lossy ≡ ok (pos 3_000)
unfolding evaluation
lossy_total = refl

rescue_run : emergency_withdraw_strategy (net_chain purse 100) 3 51 lossy ≡ ok (pos 200, rescued)
unfolding evaluation Mock.emergency_withdraw Mock.pull_all
rescue_run = refl

rescued_total : total_assets (net_chain purse 100) rescued ≡ ok (pos 2_700)
unfolding evaluation Mock.emergency_withdraw Mock.pull_all
rescued_total = refl

rescued_paid : pos (rescued.chain.outside 100) ≡ pos 1_000 +ℤ pos 200
unfolding evaluation Mock.emergency_withdraw Mock.pull_all
rescued_paid = refl

emergency_withdraw_total_example : pos 2_700 ≡ pos 3_000 -ℤ pos 500 +ℤ pos 200
unfolding lookup
emergency_withdraw_total_example =
    emergency_withdraw_total (net_chain purse 100) 3 51 9 lossy spread-IsDistinct rescued_paid refl
      lossy_total rescue_run rescued_total

-- The keeper 2 moves 600 into the strategy 50 and takes it back.
abbrev invested : World (Net Mock.Storage Purse)
invested = Fixture.after spread_world (allocate (net_chain purse 100) 2 50 (pos 600) spread_world)

allocate_run : allocate (net_chain purse 100) 2 50 (pos 600) spread_world ≡ ok (tt, invested)
unfolding evaluation Mock.deposit Mock.is_healthy
allocate_run = refl

deallocate-allocate_example :
    (w'' : World (Net Mock.Storage Purse)) × (deallocate
        (net_chain purse 100)
        2
        50
        (pos 600)
        invested
      ≡ ok (pos 600, w''))
    × (pos (w''.chain.outside 100) ≡ pos 1_000)
    × (get_tracked_balance w''.storage 50 ≡ get_tracked_balance spread 50)
    × (recorded purse 9 100 50 w''.chain ≡ recorded purse 9 100 50 net)
unfolding lookup contains
deallocate-allocate_example =
    deallocate-allocate purse 9 100 2 50 600 spread_world purse_pays refl (ground arith) refl
      first_mock (omega arith) allocate_run
