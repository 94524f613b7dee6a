-- ===== src/Vault/Tests/Prices.antt =====
-- Deposits and redemptions on a concrete chain with a strategy.
use tezoro_yield_aggregator.Base.{
  ℕ, ◌+◌, ◌-◌, ◌*◌, ◌/◌, ◌≤◌, ◌≡◌, refl, true, ◌==◌, if◌then◌else◌, none, some, [], ◌∷◌, arith,
}
use tezoro_yield_aggregator.Base.Int.{ℤ, pos, ◌≤ℤ◌}
use tezoro_yield_aggregator.Base.Map.{Address, Map, balance}
use tezoro_yield_aggregator.Base.Outcome.{Outcome, ok, err, trap}
use tezoro_yield_aggregator.Common.{Chain, StrategyInterface, StrategyError, unauthorized}
use tezoro_yield_aggregator.Vault.State.{Storage, World}
use tezoro_yield_aggregator.Vault.Store.{contains, get_total_supply}
use tezoro_yield_aggregator.Vault.Assets.{total_assets}
use tezoro_yield_aggregator.Vault.Shares.{deposit}
use tezoro_yield_aggregator.Vault.Redeem.{redeem}
use tezoro_yield_aggregator.Vault.Redeem.Payment.{PaysOut}
use tezoro_yield_aggregator.Vault.Strategies.Lists.{IsDistinct}
use tezoro_yield_aggregator.Vault.Evaluation.{evaluation}
use tezoro_yield_aggregator.Vault.Fixture.{
  move, coin, plain, coin-laws, running, world_of, start, after,
}
use tezoro_yield_aggregator.Vault.Pricing.Rounding.{offset}
use tezoro_yield_aggregator.Vault.Pricing.Payouts.{WithdrawLaws}
use tezoro_yield_aggregator.Vault.Pricing.Price.{deposit_price, redeem_price, deposit-redeem_le}

-- A strategy at every address that pays from the tokens it has.
abbrev withdrawn : Address → Address → ℤ → Map ℤ → Outcome StrategyError (ℤ × Map ℤ)
withdrawn strategy caller amount m =
    if strategy == caller
    then err unauthorized
    else elim (move strategy caller amount m) [ none ↦ trap | some m' ↦ ok (amount, m') ]

abbrev till : Address → StrategyInterface (Map ℤ)
till strategy = record {
  deposit = λ caller amount m. ok m;
  withdraw = withdrawn strategy;
  emergency_withdraw = λ caller m. withdrawn strategy caller (balance strategy m) m;
  balance_of = λ m. ok (balance strategy m);
  available_liquidity = λ m. ok (balance strategy m);
  is_healthy = λ m. ok true;
  asset = λ m. ok 9;
}

abbrev tills : Chain (Map ℤ)
tills = record { token = coin; strategy = till }

tills-laws : (self : Address) → WithdrawLaws tills 9 self
tills-laws self = record {
  withdraw_exact = λ strategy amount r x x' e.
      ground (arith, coin-laws.transfer_exact 9 strategy self amount x x');
}

-- 1,000 of the assets of 3,000 shares are idle, and 2,000 are in the strategy 50.
abbrev spread_storage : Storage
spread_storage = record running {
  strategy_list = some (50 ∷ []);
  tracked_balance = (50, pos 2_000) ∷ [];
  share_balance = (10, pos 3_000) ∷ [];
  total_supply = some (pos 3_000);
}

abbrev spread : World (Map ℤ)
spread = world_of spread_storage ((100, pos 1_000) ∷ (50, pos 2_000) ∷ (11, pos 500) ∷ [])

spread-IsDistinct : IsDistinct (50 ∷ [])
unfolding contains
spread-IsDistinct = ground arith

spread_total : total_assets tills spread ≡ ok (pos 3_000)
unfolding evaluation
spread_total = refl

abbrev paid_out : World (Map ℤ)
paid_out = after spread (redeem tills 10 (pos 1_500) spread)

redeem_run : redeem tills 10 (pos 1_500) spread ≡ ok (pos 1_500, paid_out)
unfolding evaluation
redeem_run = refl

paid_out_total : total_assets tills paid_out ≡ ok (pos 1_500)
unfolding evaluation
paid_out_total = refl

abbrev paid : ℕ
paid = 1_500 * (3_000 + offset) / (3_000 + offset)

redeem_price_example :
    (pos 1_500 ≡ pos paid)
    × PaysOut tills 10 (pos 1_500) (pos paid) spread paid_out
    × (get_total_supply paid_out.storage ≡ pos (3_000 - 1_500))
    × (3_000 ≤ 1_500 + paid)
    × ((3_000 + offset) * (3_000 - 1_500 + offset) ≤ (1_500 + offset) * (3_000 + offset))
redeem_price_example =
    redeem_price tills 10 9 1_500 3_000 3_000 1_500 spread coin-laws (tills-laws 100)
      spread-IsDistinct (omega arith) refl (omega arith) refl spread_total redeem_run paid_out_total

-- The user 11 goes in and out.
abbrev entered : World (Map ℤ)
entered = after spread (deposit tills 11 (pos 500) spread)

abbrev left : World (Map ℤ)
left = after entered (redeem tills 11 (pos 500) entered)

enter_run : deposit tills 11 (pos 500) spread ≡ ok (pos 500, entered)
unfolding evaluation
enter_run = refl

entered_total : total_assets tills entered ≡ ok (pos 3_500)
unfolding evaluation
entered_total = refl

leave_run : redeem tills 11 (pos 500) entered ≡ ok (pos 500, left)
unfolding evaluation
leave_run = refl

left_total : total_assets tills left ≡ ok (pos 3_000)
unfolding evaluation
left_total = refl

deposit-redeem_le_example :
    (pos 500 ≤ℤ pos 500)
    × PaysOut tills 11 (pos 500) (pos 500) entered left
    × (pos 3_000 ≤ℤ pos 3_000)
deposit-redeem_le_example =
    deposit-redeem_le tills 11 9 500 3_000 3_000 spread coin-laws (tills-laws 100) spread-IsDistinct
      (omega arith) refl refl spread_total enter_run entered_total leave_run left_total

abbrev deposited : World (Map ℤ)
deposited = after start (deposit plain 10 (pos 3_000) start)

start_total : total_assets plain start ≡ ok (pos 0)
unfolding evaluation
start_total = refl

deposited_total : total_assets plain deposited ≡ ok (pos 3_000)
unfolding evaluation
deposited_total = refl

deposit_run : deposit plain 10 (pos 3_000) start ≡ ok (pos 3_000, deposited)
unfolding evaluation
deposit_run = refl

abbrev minted : ℕ
minted = 3_000 * (0 + offset) / (0 + offset)

deposit_price_example :
    (pos 3_000 ≡ pos minted)
    × (get_total_supply deposited.storage ≡ pos (0 + minted))
    × (pos 3_000 ≡ pos (0 + 3_000))
    × ((0 + offset) * (0 + minted + offset) ≤ (0 + 3_000 + offset) * (0 + offset))
deposit_price_example =
    deposit_price plain 10 3_000 0 0 start coin-laws (omega arith) refl start_total deposit_run
      deposited_total
