-- ===== src/Blend/Tests.antt =====
-- Runs of the adapter over a small pool, and the theorems at concrete states.
mod Supply
mod Upgrades
use tezoro_yield_aggregator.Base.{
  min, ◌-◌, ◌*◌, ◌/◌, ◌≡◌, ◌≢◌, ◌⊎◌, ◌↔◌, refl, true, ◌==◌, if◌then◌else◌, Option, none, some, List,
  [], ◌∷◌, arith,
}
use tezoro_yield_aggregator.Base.Int.{ℤ, pos, ◌+ℤ◌, ◌-ℤ◌, ◌≤ℤ◌, ◌*ℤ◌, ◌/ℤ◌}
use tezoro_yield_aggregator.Base.Map.{Address, Map, lookup, insert}
use tezoro_yield_aggregator.Base.Outcome.{Outcome, ok, err, trap}
use tezoro_yield_aggregator.Base.Words
use tezoro_yield_aggregator.Common.{StrategyError}
use tezoro_yield_aggregator.Strategy.{Contract}
use tezoro_yield_aggregator.Vault.Fixture.{coin, move}
use tezoro_yield_aggregator.Blend.State.{Storage, Event, set_tracked_balance, get_vault, get_admin}
use tezoro_yield_aggregator.Blend.Pool.{Services, Reserve, Request}
use tezoro_yield_aggregator.Blend.Quotes
use tezoro_yield_aggregator.Blend.Methods
use tezoro_yield_aggregator.Blend.Calls.{Call, run_call, Step, Runs}
use tezoro_yield_aggregator.Blend.Funds.{
  withdraw-returns, released, reserve_of, scalar, withdraw_pays, available_liquidity-exact,
  available_liquidity_lt,
}
use tezoro_yield_aggregator.Blend.Emergency.{IsPosition, positions_of, emergency_withdraw_pays}
use tezoro_yield_aggregator.Blend.Health.{IsHealthy, is_healthy-exact}
use tezoro_yield_aggregator.Blend.Invariant.{
  IsSound, Runs-IsSound, IsPermitted, run_call-IsPermitted,
}

-- 10,000 supplied at a rate of 1.1, of which 6,000 is lent out at a rate of 1.2.
abbrev lent : Reserve
lent = record {
  index = 1;
  b_rate = pos 1_100_000_000_000;
  d_rate = pos 1_200_000_000_000;
  b_supply = pos 10_000;
  d_supply = pos 6_000;
  backstop_credit = pos 900;
}

-- A request of kind 3 pays the token out, any other takes it in.
abbrev serve : Address → Address → List Request → Map ℤ → Option (Map ℤ)
serve pool to [] m = some m
serve pool to (r ∷ requests) m =
    if r.request_type == 3 then move pool to r.amount m else move to pool r.amount m

abbrev pub services : Services (Map ℤ)
services = record {
  token = coin;
  pool = record {
    get_reserve = λ pool asset m. some lent;
    get_positions = λ pool account m. some ((1, pos 5_000) ∷ []);
    submit = λ pool from spender to requests m. serve pool to requests m;
    submit_with_allowance = λ pool from spender to requests m. serve pool from requests m;
    claim = λ pool from ids to m. some (pos 0, m);
  };
}

-- The adapter is 200, its pool 300, the token 9, the vault 100 and the admin 1.
abbrev pub adapter : Contract Storage Event (Map ℤ)
adapter = record {
  storage = record {
    initialized = some true;
    admin = some 1;
    pending_admin = none;
    vault = some 100;
    asset = some 9;
    blend_pool = some 300;
    paused = none;
    tracked_balance = some (pos 5_000);
    max_utilization_bps = none;
    min_backstop_bps = none;
    approval_buffer = none;
    upgrade_delay = none;
    scheduled_upgrade_hash = none;
    scheduled_upgrade_at = none;
  };
  events = [];
  wasm = 7;
  chain = (300, pos 6_000) ∷ [];
  timestamp = 1000;
  sequence = 50;
  self = 200;
  authorized = λ a. true;
}

abbrev pub after :
    {A : Type 0}
    → Outcome StrategyError (A × Contract Storage Event (Map ℤ))
    → Contract Storage Event (Map ℤ)
after (ok (a, w)) = w
after (err e) = adapter
after trap = adapter

abbrev withdrawn : Contract Storage Event (Map ℤ)
withdrawn = after (Methods.withdraw services 100 (pos 7_000) adapter)

withdraw_run : Methods.withdraw services 100 (pos 7_000) adapter ≡ ok (pos 5_000, withdrawn)
unfolding Methods.withdraw Methods.pull Words.sub ◌-ℤ◌ ◌+ℤ◌ move lookup insert
withdraw_run = refl

withdraw_pays_example :
    (adapter.authorized 100 ≡ true)
    × (adapter.storage.vault ≡ some 100)
    × (pos 5_000 ≡ pos 5_000)
    × (released services adapter 100 (pos 5_000) ≡ some withdrawn.chain)
    × (withdrawn.storage
        ≡ record adapter.storage { tracked_balance = some (pos 5_000 -ℤ pos 5_000) })
withdraw_pays_example = withdraw_pays services 100 (pos 7_000) adapter withdraw_run

liquidity_run : Quotes.available_liquidity services adapter ≡ ok (pos 3_798)
unfolding Quotes.available_liquidity Quotes.liquidity_of Quotes.liquidity_in
    Quotes.apply_rounding_margin Quotes.underlying Words.sub Words.mul Words.div ◌-ℤ◌ ◌*ℤ◌ ◌/ℤ◌
liquidity_run = refl

available_liquidity-exact_example :
    pos 3_798
    ≡ pos (min 5_000 (10_000 * 1_100_000_000_000 / scalar - 6_000 * 1_200_000_000_000 / scalar) - 2)
available_liquidity-exact_example =
    available_liquidity-exact services adapter 5_000 10_000 1_100_000_000_000 6_000
      1_200_000_000_000 lent refl refl (refl, refl, refl, refl) (omega arith) liquidity_run

available_liquidity_lt_example :
    (pos 0 ≤ℤ pos 3_798)
    × (((pos 5_000 ≡ pos 0) × (pos 3_798 ≡ pos 0)) ⊎ (pos 3_798 +ℤ pos 1 ≤ℤ pos 5_000))
available_liquidity_lt_example = available_liquidity_lt services adapter (omega arith) liquidity_run

health_run : Quotes.is_healthy services adapter ≡ ok true
unfolding Quotes.is_healthy Quotes.health_of Quotes.reserve_healthy Quotes.utilization_ok
    Quotes.coverage_ok Quotes.ratio_bps Words.mul Words.div ◌*ℤ◌ ◌/ℤ◌
health_run = refl

is_healthy-exact_example :
    (true ≡ true) ↔ IsHealthy adapter.storage (reserve_of services adapter) 10_000 6_000
is_healthy-exact_example = is_healthy-exact services adapter 10_000 6_000 (refl, refl) health_run

withdraw_call : run_call services (Call.withdraw 100 (pos 7_000)) adapter ≡ ok (tt, withdrawn)
unfolding run_call Methods.withdraw Methods.pull Words.sub ◌-ℤ◌ ◌+ℤ◌ move lookup insert
withdraw_call = refl

pub adapter-IsSound : IsSound adapter.storage
adapter-IsSound = record {
  tracked_nonneg = omega arith;
  utilization_bounded = omega arith;
  backstop_bounded = omega arith;
  delay_bounded = omega arith;
}

Runs-IsSound_example : IsSound withdrawn.storage
Runs-IsSound_example =
    Runs-IsSound services adapter-IsSound
      (Runs.next Runs.here (Step.calls (Call.withdraw 100 (pos 7_000)) withdraw_call))

run_call-IsPermitted_example : IsPermitted (Call.withdraw 100 (pos 7_000)) adapter
run_call-IsPermitted_example =
    run_call-IsPermitted services (Call.withdraw 100 (pos 7_000)) adapter withdraw_call

released_run :
    released services adapter 100 (pos 3_000)
    ≡ some ((300, pos 3_000) ∷ (200, pos 0) ∷ (100, pos 3_000) ∷ [])
unfolding move lookup insert ◌+ℤ◌ ◌-ℤ◌
released_run = refl

withdraw-returns_example :
    (w' : Contract Storage Event (Map ℤ)) × (Methods.withdraw services 100 (pos 3_000) adapter
      ≡ ok (pos 3_000, w'))
    × (w'.chain ≡ (300, pos 3_000) ∷ (200, pos 0) ∷ (100, pos 3_000) ∷ [])
    × (w'.storage ≡ set_tracked_balance (pos (5_000 - 3_000)) adapter.storage)
withdraw-returns_example =
    withdraw-returns services 100 3_000 5_000 adapter refl refl refl (omega arith) liquidity_run
      (omega arith) (omega arith) refl refl released_run

-- The admin calls; the vault is paid.
abbrev emptied : Contract Storage Event (Map ℤ)
emptied = after (Methods.emergency_withdraw services 1 adapter)

emergency_run : Methods.emergency_withdraw services 1 adapter ≡ ok (pos 5_500, emptied)
unfolding Methods.emergency_withdraw Methods.pull_position Methods.forget_balance Methods.pull
    Quotes.query_pool_position Quotes.underlying Words.mul Words.div ◌*ℤ◌ ◌/ℤ◌ ◌-ℤ◌ ◌+ℤ◌ move lookup
    insert
emergency_run = refl

emergency_withdraw_pays_example :
    (adapter.authorized 1 ≡ true)
    × ((get_vault adapter.storage ≡ ok 1) ⊎ (get_admin adapter.storage ≡ ok 1))
    × IsPosition
        (pos 5_000)
        (reserve_of services adapter)
        (positions_of services adapter)
        (pos 5_500)
    × (emptied.storage ≡ record adapter.storage { tracked_balance = some (pos 0) })
    × (((pos 5_500 ≡ pos 0) × (emptied.chain ≡ adapter.chain) × (emptied.events ≡ adapter.events))
        ⊎ ((pos 5_500 ≢ pos 0)
            × (released services adapter 100 (pos 5_500) ≡ some emptied.chain)
            × (emptied.events ≡ Event.emergency_withdraw (pos 5_500) 1 ∷ adapter.events)))
emergency_withdraw_pays_example = emergency_withdraw_pays services 1 adapter emergency_run

-- A pool of which the loans, 9,400 at a rate of 1.2, are worth more than what is supplied, 10,000 at
-- a rate of 1.1: the counts of tokens are in a ratio of 94 percent, and the adapter reports health.
abbrev overlent : Services (Map ℤ)
overlent = record services {
  pool = record services.pool {
    get_reserve = λ pool asset m. some (record lent { d_supply = pos 9_400 });
  };
}

overlent_health_run : Quotes.is_healthy overlent adapter ≡ ok true
unfolding Quotes.is_healthy Quotes.health_of Quotes.reserve_healthy Quotes.utilization_ok
    Quotes.coverage_ok Quotes.ratio_bps Words.mul Words.div ◌*ℤ◌ ◌/ℤ◌
overlent_health_run = refl

supplied_worth :
    ◌≡◌ {A = Outcome StrategyError ℤ}
      (Quotes.underlying (pos 10_000) (pos 1_100_000_000_000))
      (ok (pos 11_000))
unfolding Quotes.underlying Words.mul Words.div ◌*ℤ◌ ◌/ℤ◌
supplied_worth = refl

lent_worth :
    ◌≡◌ {A = Outcome StrategyError ℤ}
      (Quotes.underlying (pos 9_400) (pos 1_200_000_000_000))
      (ok (pos 11_280))
unfolding Quotes.underlying Words.mul Words.div ◌*ℤ◌ ◌/ℤ◌
lent_worth = refl
