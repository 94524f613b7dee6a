-- ===== src/Net/Tests.antt =====
-- The vault over two mock strategies.
mod Bank
mod Adapters
mod Funding
use tezoro_yield_aggregator.Base.{
  ℕ, ◌+◌, ◌-◌, ◌≡◌, refl, true, none, some, leb, ◌==◌, ◌&&◌, if◌then◌else◌, [], ◌∷◌, arith,
}
use tezoro_yield_aggregator.Base.Int.{ℤ, pos, pos_part, leb_ℤ, ◌≤ℤ◌, ◌+ℤ◌, ◌-ℤ◌}
use tezoro_yield_aggregator.Base.Map.{Address, lookup}
use tezoro_yield_aggregator.Base.Outcome.{ok}
use tezoro_yield_aggregator.Common.{Token}
use tezoro_yield_aggregator.Mock
use tezoro_yield_aggregator.Net.{Net, net_chain}
use tezoro_yield_aggregator.Net.Promises.{PayingToken, Serves, recorded}
use tezoro_yield_aggregator.Net.Funding.{deallocate-allocate}
use tezoro_yield_aggregator.Net.Redemption.{AllServe, redeem-served}
use tezoro_yield_aggregator.Vault.{World, Storage}
use tezoro_yield_aggregator.Vault.Store.{
  get_share_balance, get_strategies, get_tracked_balance, contains,
}
use tezoro_yield_aggregator.Vault.Assets.{convert_to_assets, total_assets}
use tezoro_yield_aggregator.Vault.Soundness.{IsSound}
use tezoro_yield_aggregator.Vault.Redeem.{redeem}
use tezoro_yield_aggregator.Vault.Redeem.Payment.{PaysOut}
use tezoro_yield_aggregator.Vault.Redeem.Liquidity.{InRange}
use tezoro_yield_aggregator.Vault.Pricing.Assets.{TokenLaws}
use tezoro_yield_aggregator.Vault.Evaluation.{evaluation}
use tezoro_yield_aggregator.Vault.Strategies.{allocate, deallocate, emergency_withdraw_strategy}
use tezoro_yield_aggregator.Vault.Strategies.Lists.{IsDistinct}
use tezoro_yield_aggregator.Vault.Pricing.Deallocation.{deallocate_total, emergency_withdraw_total}
use tezoro_yield_aggregator.Vault.Fixture
use tezoro_yield_aggregator.Vault.Fixture.{running, world_of}

-- What each address has of the one token.
abbrev pub Purse : Type 0
Purse = Address → ℕ

abbrev pub spend : Address → Address → ℕ → Purse → Purse
spend from to n x a =
    if from == to then x a else if a == from then x a - n else if a == to then x a + n else x a

abbrev pub purse : Token Purse
purse = record {
  balance = λ asset id x. pos (x id);
  transfer = λ asset from to amount x.
      if leb_ℤ (pos 0) amount && leb (pos_part amount) (x from)
      then some (spend from to (pos_part amount) x)
      else none;
  approve = λ asset from spender amount until x. some x;
}

purse-laws : TokenLaws purse
unfolding ◌+ℤ◌ ◌-ℤ◌
purse-laws = record {
  transfer_exact = λ asset from to amount x x' ne e. (ground arith, ground arith);
}

pub purse_pays : PayingToken purse
purse_pays = record {
  exact = purse-laws;
  nonneg = λ asset id x. omega arith;
  covered = λ asset from to n x le. (spend from to n x, ground arith);
  others = λ asset from to id n x x' ne ne' e. ground arith;
}

abbrev pub mock_of : ℤ → Mock.Storage
mock_of recorded = record {
  initialized = some true;
  admin = some 1;
  vault = some 100;
  asset = some 9;
  balance = some recorded;
  healthy = some true;
}

-- The holder 10 has all 3,000 shares; 1,000 is idle, 1,500 in the one strategy, 500 in the other.
abbrev pub spread : Storage
spread = record running {
  strategy_list = some (50 ∷ 51 ∷ []);
  tracked_balance = (50, pos 1_500) ∷ (51, pos 500) ∷ [];
  share_balance = (10, pos 3_000) ∷ [];
  total_supply = some (pos 3_000);
}

abbrev pub purses : Purse
purses a = if a == 100 then 1_000 else if a == 50 then 1_500 else if a == 51 then 500 else 0

abbrev pub net : Net Mock.Storage Purse
net = record {
  outside = purses;
  contracts = (50, mock_of (pos 1_500)) ∷ (51, mock_of (pos 500)) ∷ [];
  timestamp = 1_000;
  sequence = 70;
}

abbrev pub spread_world : World (Net Mock.Storage Purse)
spread_world = world_of spread net

mock_holds :
    (id : Address) (recorded : ℤ)
    → lookup id net.contracts ≡ some (mock_of recorded)
    → pos 0 ≤ℤ recorded
    → recorded ≤ℤ pos (purses id)
    → Serves purse 9 100 id net
mock_holds id recorded e nonneg held = record {
  state = mock_of recorded;
  deployed = e;
  for_vault = refl;
  of_asset = refl;
  recorded_nonneg = nonneg;
  recorded_small = ground arith;
  solvent = held;
}

pub first_mock : Serves purse 9 100 50 net
unfolding lookup
first_mock = mock_holds 50 (pos 1_500) refl (omega arith) (ground arith)

serving : AllServe purse 9 100 (get_strategies spread) net
unfolding lookup contains
serving = (
  refl,
  ground arith,
  first_mock,
  (refl, ground arith, mock_holds 51 (pos 500) refl (omega arith) (ground arith), tt),
)

spread-IsSound : IsSound spread
unfolding evaluation
spread-IsSound = ground arith

spread-InRange : InRange spread.tracked_balance
unfolding lookup
spread-InRange a = ground arith

spread_worth_run : convert_to_assets (net_chain purse 100) (pos 3_000) spread_world ≡ ok (pos 3_000)
unfolding evaluation
spread_worth_run = refl

spread_owned_run : get_share_balance spread 10 ≡ pos 3_000
unfolding lookup
spread_owned_run = refl

redeem-served_example :
    (w' : World (Net Mock.Storage Purse)) × (redeem
        (net_chain purse 100)
        10
        (pos 3_000)
        spread_world
      ≡ ok (pos 3_000, w'))
    × PaysOut (net_chain purse 100) 10 (pos 3_000) (pos 3_000) spread_world w'
unfolding lookup
redeem-served_example =
    redeem-served purse 9 100 10 3_000 3_000 3_000 3_000 spread_world purse_pays serving
      spread-IsSound spread-InRange refl refl refl refl spread_owned_run refl (omega arith)
      (omega arith) (omega arith) (omega arith) spread_worth_run (omega arith) (ground arith)
