-- ===== src/Mock/Tests.antt =====
-- A withdrawal from the mock strategy.
use tezoro_yield_aggregator.Base.{◌-◌, ◌≡◌, refl, true, some, [], ◌∷◌, arith}
use tezoro_yield_aggregator.Base.Int.{ℤ, pos, ◌+ℤ◌, ◌-ℤ◌}
use tezoro_yield_aggregator.Base.Map.{Map, lookup, insert}
use tezoro_yield_aggregator.Base.Outcome.{ok}
use tezoro_yield_aggregator.Strategy.{Contract}
use tezoro_yield_aggregator.Vault.Fixture.{coin, move}
use tezoro_yield_aggregator.Mock.{Storage, Event, withdraw, available_liquidity, balance_of}
use tezoro_yield_aggregator.Mock.Promises.{withdraw-available_liquidity}

-- The mock is 50, its vault 100 and the token 9.
abbrev mock : Contract Storage Event (Map ℤ)
mock = record {
  storage = record {
    initialized = some true;
    admin = some 1;
    vault = some 100;
    asset = some 9;
    balance = some (pos 2_000);
    healthy = some true;
  };
  events = [];
  wasm = 7;
  chain = (50, pos 2_000) ∷ [];
  timestamp = 1000;
  sequence = 50;
  self = 50;
  authorized = λ a. true;
}

quote_run : available_liquidity mock ≡ ok (pos 2_000)
unfolding available_liquidity balance_of
quote_run = refl

transfer_run :
    coin.transfer 9 50 100 (pos 500) mock.chain ≡ some ((50, pos 1_500) ∷ (100, pos 500) ∷ [])
unfolding move lookup insert ◌+ℤ◌ ◌-ℤ◌
transfer_run = refl

withdraw-available_liquidity_example :
    (w' : Contract Storage Event (Map ℤ)) × (withdraw coin 100 (pos 500) mock ≡ ok (pos 500, w'))
    × (w'.chain ≡ (50, pos 1_500) ∷ (100, pos 500) ∷ [])
    × (w'.storage ≡ record mock.storage { balance = some (pos (2_000 - 500)) })
    × (available_liquidity w' ≡ ok (pos (2_000 - 500)))
withdraw-available_liquidity_example =
    withdraw-available_liquidity coin 100 9 500 2_000 mock refl refl refl quote_run (omega arith)
      (omega arith) (omega arith) transfer_run
