-- ===== src/Vault/Fixture.antt =====
-- A small chain for tests: one token as a map of balances, and no strategy that answers.
use tezoro_yield_aggregator.Base.{true, ◌&&◌, if◌then◌else◌, Option, none, some, [], ◌∷◌, arith}
use tezoro_yield_aggregator.Base.Int.{ℤ, pos, ◌+ℤ◌, ◌-ℤ◌, leb_ℤ}
use tezoro_yield_aggregator.Base.Map.{Address, Map, balance, insert, lookup-insert}
use tezoro_yield_aggregator.Base.Outcome.{Outcome, ok, err, trap}
use tezoro_yield_aggregator.Common.{Token, StrategyInterface, Chain}
use tezoro_yield_aggregator.Vault.State.{Storage, World, VaultError}
use tezoro_yield_aggregator.Vault.Pricing.Assets.{TokenLaws}

-- A transfer of an amount that is not negative and is covered.
unfoldable pub move : Address → Address → ℤ → Map ℤ → Option (Map ℤ)
move from to amount m =
    if leb_ℤ (pos 0) amount && leb_ℤ amount (balance from m)
    then (let m' = insert from (balance from m -ℤ amount) m in
        some (insert to (balance to m' +ℤ amount) m'))
    else none

abbrev pub coin : Token (Map ℤ)
coin = record {
  balance = λ asset id m. balance id m;
  transfer = λ asset from to amount m. move from to amount m;
  approve = λ asset from spender amount until m. some m;
}

abbrev silent : StrategyInterface (Map ℤ)
silent = record {
  deposit = λ caller amount m. trap;
  withdraw = λ caller amount m. trap;
  emergency_withdraw = λ caller m. trap;
  balance_of = λ m. trap;
  available_liquidity = λ m. trap;
  is_healthy = λ m. trap;
  asset = λ m. trap;
}

abbrev pub plain : Chain (Map ℤ)
plain = record { token = coin; strategy = λ a. silent }

pub coin-laws : TokenLaws coin
unfolding move
coin-laws = record {
  transfer_exact = λ asset from to amount m m' ne e. ground (
    arith,
    lookup-insert from to (balance to (insert from (balance from m -ℤ amount) m) +ℤ amount)
        (insert from (balance from m -ℤ amount) m),
    lookup-insert to to (balance to (insert from (balance from m -ℤ amount) m) +ℤ amount)
        (insert from (balance from m -ℤ amount) m),
    lookup-insert from from (balance from m -ℤ amount) m,
    lookup-insert to from (balance from m -ℤ amount) m,
  );
}

-- A contract with nothing written.
abbrev pub empty_storage : Storage
empty_storage = record {
  admin = none;
  pending_admin = none;
  keeper = none;
  guardian = none;
  asset = none;
  initialized = none;
  paused = none;
  performance_fee_bps = none;
  fee_recipient = none;
  idle_buffer_bps = none;
  deposit_cap = none;
  strategy_list = none;
  vault_name = none;
  vault_symbol = none;
  bridged_max_age = none;
  upgrade_delay = none;
  total_supply = none;
  high_water_mark = none;
  tracked_balance = [];
  share_balance = [];
  bridged_balance = none;
  bridged_timestamp = none;
  scheduled_upgrade_hash = none;
  scheduled_upgrade_at = none;
}

-- The vault is 100, the token 9, the admin 1, the keeper 2, the guardian 3 and the fee recipient 4.
abbrev pub running : Storage
running = record empty_storage {
  admin = some 1;
  keeper = some 2;
  guardian = some 3;
  asset = some 9;
  initialized = some true;
  performance_fee_bps = some 1500;
  fee_recipient = some 4;
  idle_buffer_bps = some 300;
}

abbrev pub world_of : {X : Type 0} → Storage → X → World X
world_of s x = record {
  storage = s;
  events = [];
  wasm = 7;
  chain = x;
  timestamp = 1000;
  self = 100;
  authorized = λ a. true;
}

-- The user 10 has 5,000 of the token.
abbrev pub start : World (Map ℤ)
start = world_of running ((10, pos 5_000) ∷ [])

-- The state after a call that is known to return.
abbrev pub after : {X A : Type 0} → World X → Outcome VaultError (A × World X) → World X
after w (ok (a, w')) = w'
after w (err e) = w
after w trap = w
