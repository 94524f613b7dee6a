-- ===== src/Vault/Tests/Allocation.antt =====
-- A strategy is added, funded by the keeper, and another one is added and removed.
use tezoro_yield_aggregator.Base.{◌*◌, ◌/◌, ◌≡◌, ◌≢◌, refl, true, some, [], ◌∷◌, arith}
use tezoro_yield_aggregator.Base.Int.{ℤ, pos, ◌≤ℤ◌}
use tezoro_yield_aggregator.Base.Map.{Map}
use tezoro_yield_aggregator.Base.Outcome.{ok, trap}
use tezoro_yield_aggregator.Common.{Chain, StrategyInterface, max_bps}
use tezoro_yield_aggregator.Vault.State.{World}
use tezoro_yield_aggregator.Vault.Store.{
  get_strategies, get_tracked_balance, get_idle_buffer_bps, strategy_exists,
}
use tezoro_yield_aggregator.Vault.Assets.{total_assets}
use tezoro_yield_aggregator.Vault.Strategies.{add_strategy, remove_strategy, allocate}
use tezoro_yield_aggregator.Vault.Strategies.Lists.{IsDistinct}
use tezoro_yield_aggregator.Vault.Strategies.Registry.{unregistered, remove_strategy-add_strategy}
use tezoro_yield_aggregator.Vault.Pricing.Allocation.{allocate_total}
use tezoro_yield_aggregator.Vault.Evaluation.{evaluation}
use tezoro_yield_aggregator.Vault.Fixture.{coin, coin-laws, running, world_of, after}

-- A strategy that keeps what it is sent.
abbrev keeper_of_funds : StrategyInterface (Map ℤ)
keeper_of_funds = record {
  deposit = λ caller amount m. ok m;
  withdraw = λ caller amount m. trap;
  emergency_withdraw = λ caller m. trap;
  balance_of = λ m. ok (pos 0);
  available_liquidity = λ m. ok (pos 0);
  is_healthy = λ m. ok true;
  asset = λ m. ok 9;
}

abbrev chain : Chain (Map ℤ)
chain = record { token = coin; strategy = λ a. keeper_of_funds }

abbrev funded : World (Map ℤ)
funded = world_of running ((100, pos 5_000) ∷ [])

abbrev registered : World (Map ℤ)
registered = after funded (add_strategy 1 50 funded)

abbrev allocated : World (Map ℤ)
allocated = after registered (allocate chain 2 50 (pos 2_000) registered)

add_run : add_strategy 1 50 funded ≡ ok (tt, registered)
unfolding evaluation
add_run = refl

allocate_run : allocate chain 2 50 (pos 2_000) registered ≡ ok (tt, allocated)
unfolding evaluation
allocate_run = refl

registered_total : total_assets chain registered ≡ ok (pos 5_000)
unfolding evaluation
registered_total = refl

allocated_total : total_assets chain allocated ≡ ok (pos 5_000)
unfolding evaluation
allocated_total = refl

remove_strategy-add_strategy_example :
    (strategy_exists registered.storage 50 ≡ true)
    × (get_tracked_balance registered.storage 50 ≡ pos 0)
    × (remove_strategy 1 50 registered
        ≡ ok (tt, unregistered 50 (get_strategies funded.storage) registered))
remove_strategy-add_strategy_example = remove_strategy-add_strategy 1 50 funded add_run

registered-IsDistinct : IsDistinct (get_strategies registered.storage)
unfolding evaluation
registered-IsDistinct = ground arith

registered_self : registered.self ≢ 50
unfolding evaluation
registered_self = omega arith

registered_asset : registered.storage.asset ≡ some 9
unfolding evaluation
registered_asset = refl

stays :
    (x x' : Map ℤ)
    → (chain.strategy 50).deposit registered.self (pos 2_000) x ≡ ok x'
    → chain.token.balance 9 registered.self x' ≡ chain.token.balance 9 registered.self x
stays x x' e = ground arith

allocate_total_example :
    (pos 5_000 ≡ pos 5_000)
    × (pos (5_000 * get_idle_buffer_bps registered.storage / max_bps)
        ≤ℤ chain.token.balance 9 registered.self allocated.chain)
allocate_total_example =
    allocate_total chain 2 50 9 (pos 2_000) 5_000 registered coin-laws registered-IsDistinct
      registered_self stays registered_asset registered_total allocate_run allocated_total
