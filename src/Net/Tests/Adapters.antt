-- ===== src/Net/Tests/Adapters.antt =====
-- The vault over two adapters in two pools.
use tezoro_yield_aggregator.Base.{
  ℕ, ◌≡◌, refl, true, none, some, ◌==◌, ◌&&◌, if◌then◌else◌, [], ◌∷◌, arith,
}
use tezoro_yield_aggregator.Base.Int.{pos, ◌-ℤ◌, ◌*ℤ◌, ◌/ℤ◌}
use tezoro_yield_aggregator.Base.Map.{Address, lookup}
use tezoro_yield_aggregator.Base.Outcome.{ok}
use tezoro_yield_aggregator.Base.Words
use tezoro_yield_aggregator.Blend.State
use tezoro_yield_aggregator.Blend.Quotes
use tezoro_yield_aggregator.Blend.Funds.{scalar}
use tezoro_yield_aggregator.Net.{Net, context, adapter_chain}
use tezoro_yield_aggregator.Net.Lending.{Lends}
use tezoro_yield_aggregator.Net.Adapters.{AllLend}
use tezoro_yield_aggregator.Net.Adapters.Redemption.{redeem-lent}
use tezoro_yield_aggregator.Net.Tests.Bank.{Bank, bank, reserve_in, bank_pools, bank_pays}
use tezoro_yield_aggregator.Vault.{World, Storage}
use tezoro_yield_aggregator.Vault.Store.{contains, get_strategies, get_share_balance}
use tezoro_yield_aggregator.Vault.Assets.{convert_to_assets}
use tezoro_yield_aggregator.Vault.Soundness.{IsSound}
use tezoro_yield_aggregator.Vault.Redeem.{redeem}
use tezoro_yield_aggregator.Vault.Redeem.Payment.{PaysOut}
use tezoro_yield_aggregator.Vault.Redeem.Liquidity.{InRange}
use tezoro_yield_aggregator.Vault.Evaluation.{evaluation}
use tezoro_yield_aggregator.Vault.Fixture.{running, world_of}

-- The adapter 50 has 1,500 in the pool 300, the adapter 51 has 500 in the pool 301.
abbrev adapter_of : Address → ℕ → State.Storage
adapter_of pool tracked = record {
  initialized = some true;
  admin = some 1;
  pending_admin = none;
  vault = some 100;
  asset = some 9;
  blend_pool = some pool;
  paused = none;
  tracked_balance = some (pos tracked);
  max_utilization_bps = none;
  min_backstop_bps = none;
  approval_buffer = none;
  upgrade_delay = none;
  scheduled_upgrade_hash = none;
  scheduled_upgrade_at = none;
}

abbrev deposited : Bank
deposited = record {
  tokens = λ a. if a == 100 then 10 else if a == 300 then 1_400 else if a == 301 then 600 else 0;
  supply = λ p. if p == 300 then 2_000 else 800;
  position = λ p a. if p == 300 && a == 50 then 1_500 else if p == 301 && a == 51 then 500 else 0;
}

abbrev lending : Net State.Storage Bank
lending = record {
  outside = deposited;
  contracts = (50, adapter_of 300 1_500) ∷ (51, adapter_of 301 500) ∷ [];
  timestamp = 1_000;
  sequence = 70;
}

-- The holder 10 has all 2,000 of the shares; 10 is idle, and 1,896 is within reach.
abbrev lent_storage : Storage
lent_storage = record running {
  strategy_list = some (50 ∷ 51 ∷ []);
  tracked_balance = (50, pos 1_500) ∷ (51, pos 500) ∷ [];
  share_balance = (10, pos 2_000) ∷ [];
  total_supply = some (pos 2_000);
}

abbrev lent_world : World (Net State.Storage Bank)
lent_world = world_of lent_storage lending

first_deployed : lookup 50 lending.contracts ≡ some (adapter_of 300 1_500)
unfolding lookup
first_deployed = refl

first_quote_run :
    Quotes.available_liquidity bank (context {E = State.Event} 50 50 (adapter_of 300 1_500) lending)
    ≡ ok (pos 1_398)
unfolding Quotes.available_liquidity Quotes.liquidity_of Quotes.liquidity_in
    Quotes.apply_rounding_margin Quotes.underlying Words.sub Words.mul Words.div ◌-ℤ◌ ◌*ℤ◌ ◌/ℤ◌
first_quote_run = refl

abbrev first_adapter : Lends bank 9 100 bank_pools 50 lending
first_adapter = record {
  state = adapter_of 300 1_500;
  pool = 300;
  tracked = 1_500;
  b_supply = 2_000;
  b_rate = scalar;
  d_supply = 600;
  d_rate = scalar;
  quote = 1_398;
  reserve = reserve_in 300 deposited;
  deployed = first_deployed;
  for_vault = refl;
  of_asset = refl;
  in_pool = refl;
  not_pool = omega arith;
  not_vault = omega arith;
  tracks = refl;
  tracked_small = omega arith;
  read = refl;
  holds = (refl, refl, refl, refl);
  solvent = omega arith;
  quotes = first_quote_run;
  covered = omega arith;
}

second_deployed : lookup 51 lending.contracts ≡ some (adapter_of 301 500)
unfolding lookup
second_deployed = refl

second_quote_run :
    Quotes.available_liquidity bank (context {E = State.Event} 51 51 (adapter_of 301 500) lending)
    ≡ ok (pos 498)
unfolding Quotes.available_liquidity Quotes.liquidity_of Quotes.liquidity_in
    Quotes.apply_rounding_margin Quotes.underlying Words.sub Words.mul Words.div ◌-ℤ◌ ◌*ℤ◌ ◌/ℤ◌
second_quote_run = refl

abbrev second_adapter : Lends bank 9 100 bank_pools 51 lending
second_adapter = record {
  state = adapter_of 301 500;
  pool = 301;
  tracked = 500;
  b_supply = 800;
  b_rate = scalar;
  d_supply = 200;
  d_rate = scalar;
  quote = 498;
  reserve = reserve_in 301 deposited;
  deployed = second_deployed;
  for_vault = refl;
  of_asset = refl;
  in_pool = refl;
  not_pool = omega arith;
  not_vault = omega arith;
  tracks = refl;
  tracked_small = omega arith;
  read = refl;
  holds = (refl, refl, refl, refl);
  solvent = omega arith;
  quotes = second_quote_run;
  covered = omega arith;
}

both_adapters : AllLend bank 9 100 bank_pools (get_strategies lent_storage) lending
unfolding contains lookup
both_adapters = (
  refl,
  omega arith,
  (first_adapter, ((λ st e. ground arith), tt)),
  (refl, omega arith, (second_adapter, tt), tt),
)

lent-IsSound : IsSound lent_storage
unfolding evaluation
lent-IsSound = ground arith

lent-InRange : InRange lent_storage.tracked_balance
unfolding lookup
lent-InRange a = ground arith

lent_worth_run : convert_to_assets (adapter_chain bank 100) (pos 1_800) lent_world ≡ ok (pos 1_800)
unfolding evaluation
lent_worth_run = refl

lent_owned_run : get_share_balance lent_storage 10 ≡ pos 2_000
unfolding lookup
lent_owned_run = refl

redeem-lent_example :
    (w' : World (Net State.Storage Bank)) × (redeem
        (adapter_chain bank 100)
        10
        (pos 1_800)
        lent_world
      ≡ ok (pos 1_800, w'))
    × PaysOut (adapter_chain bank 100) 10 (pos 1_800) (pos 1_800) lent_world w'
unfolding lookup Quotes.available_liquidity Quotes.liquidity_of Quotes.liquidity_in
    Quotes.apply_rounding_margin Quotes.underlying Words.sub Words.mul Words.div ◌-ℤ◌ ◌*ℤ◌ ◌/ℤ◌
redeem-lent_example =
    redeem-lent bank 9 100 bank_pools 10 1_800 2_000 2_000 1_800 lent_world bank_pays both_adapters
      lent-IsSound lent-InRange refl refl refl refl lent_owned_run refl (omega arith) (omega arith)
      (omega arith) (omega arith) lent_worth_run (omega arith) (omega arith)
