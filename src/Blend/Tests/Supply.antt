-- ===== src/Blend/Tests/Supply.antt =====
-- A deposit that the pool takes.
use tezoro_yield_aggregator.Base.{◌+◌, ◌<◌, ◌≡◌, refl, true, false, some, [], ◌∷◌}
use tezoro_yield_aggregator.Base.Int.{pos, ◌+ℤ◌, ◌-ℤ◌, ◌≤ℤ◌}
use tezoro_yield_aggregator.Base.Map.{Map, lookup, insert}
use tezoro_yield_aggregator.Base.Outcome.{ok}
use tezoro_yield_aggregator.Base.Words
use tezoro_yield_aggregator.Base.Words.{u32_bound}
use tezoro_yield_aggregator.Strategy.{Contract}
use tezoro_yield_aggregator.Vault.Fixture.{move}
use tezoro_yield_aggregator.Base.Int.{ℤ}
use tezoro_yield_aggregator.Blend.State.{
  Storage, Event, get_tracked_balance, get_approval_buffer, is_paused,
}
use tezoro_yield_aggregator.Blend.Methods
use tezoro_yield_aggregator.Blend.Supply.{supplied, deposit_supplies}
use tezoro_yield_aggregator.Blend.Tests.{adapter, services, after}

-- The adapter was sent 800.
abbrev funded : Contract Storage Event (Map ℤ)
funded = record adapter { chain = (300, pos 6_000) ∷ (200, pos 800) ∷ [] }

abbrev supplying : Contract Storage Event (Map ℤ)
supplying = after (Methods.deposit services 100 (pos 800) funded)

deposit_run : Methods.deposit services 100 (pos 800) funded ≡ ok (tt, supplying)
unfolding Methods.deposit Words.add Words.add_u32 ◌-ℤ◌ ◌+ℤ◌ move lookup insert
deposit_run = refl

deposit_supplies_example :
    (funded.authorized 100 ≡ true)
    × (funded.storage.vault ≡ some 100)
    × (is_paused funded.storage ≡ false)
    × (pos 1 ≤ℤ pos 800)
    × (funded.sequence + get_approval_buffer funded.storage < u32_bound)
    × (supplied services funded (pos 800) ≡ some supplying.chain)
    × (supplying.storage ≡ record funded.storage {
      tracked_balance = some (get_tracked_balance funded.storage +ℤ pos 800);
    })
deposit_supplies_example = deposit_supplies services 100 (pos 800) funded deposit_run
