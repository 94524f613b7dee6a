-- ===== src/Vault/Tests/Liveness.antt =====
-- A redemption that is served by a strategy.
use tezoro_yield_aggregator.Base.{
  ℕ, ◌+◌, ◌-◌, ◌≤◌, ◌≡◌, refl, true, leb, ◌==◌, if◌then◌else◌, none, some, List, [], ◌∷◌, arith,
}
use tezoro_yield_aggregator.Base.Int.{pos, pos_part}
use tezoro_yield_aggregator.Base.Map.{Address, lookup}
use tezoro_yield_aggregator.Base.Outcome.{ok, err, trap}
use tezoro_yield_aggregator.Common.{Chain, Token, StrategyInterface, insufficient_balance}
use tezoro_yield_aggregator.Vault.State.{World, Storage}
use tezoro_yield_aggregator.Vault.Store.{contains, get_share_balance}
use tezoro_yield_aggregator.Vault.Strategies.Lists.{IsDistinct}
use tezoro_yield_aggregator.Vault.Soundness.{IsSound}
use tezoro_yield_aggregator.Vault.Assets.{convert_to_assets}
use tezoro_yield_aggregator.Vault.Redeem.{redeem, waterfall}
use tezoro_yield_aggregator.Vault.Redeem.Liquidity.{LiquidityLaws, InRange, All, drained}
use tezoro_yield_aggregator.Vault.Redeem.Waterfall.{waterfall-drained}
use tezoro_yield_aggregator.Vault.Redeem.Payment.{PaysOut}
use tezoro_yield_aggregator.Vault.Redeem.Liveness.{redeem-returns}
use tezoro_yield_aggregator.Vault.Evaluation.{evaluation}
use tezoro_yield_aggregator.Vault.Fixture.{running, world_of}

-- What the vault 100 holds, and what the strategy 50 has.
abbrev Pot : Type 0
Pot = ℕ × ℕ

abbrev funds_of : Address → Pot → ℕ
funds_of strategy x = if strategy == 50 then x.1 else 0

abbrev moved : Address → ℕ → Pot → Pot
moved strategy n x = if strategy == 50 then (x.0 + n, x.1 - n) else x

abbrev pot_token : Token Pot
pot_token = record {
  balance = λ asset id x. if id == 100 then pos x.0 else pos 0;
  transfer = λ asset from to amount x.
      if leb (pos_part amount) x.0 then some (x.0 - pos_part amount, x.1) else none;
  approve = λ asset from spender amount until x. some x;
}

abbrev pot_strategy : Address → StrategyInterface Pot
pot_strategy strategy = record {
  deposit = λ caller amount x. trap;
  withdraw = λ caller amount x.
      if leb (pos_part amount) (funds_of strategy x)
      then ok (amount, moved strategy (pos_part amount) x)
      else err insufficient_balance;
  emergency_withdraw = λ caller x. trap;
  balance_of = λ x. ok (pos (funds_of strategy x));
  available_liquidity = λ x. ok (pos (funds_of strategy x));
  is_healthy = λ x. ok true;
  asset = λ x. ok 9;
}

abbrev pot : Chain Pot
pot = record { token = pot_token; strategy = pot_strategy }

pot-apart :
    (s : Address) (ids : List Address) (n : ℕ) (x : Pot)
    → IsDistinct (s ∷ ids)
    → All (λ t. funds_of t (moved s n x) ≡ funds_of t x) ids
unfolding contains
pot-apart s [] n x d = tt
pot-apart s (t ∷ ids) n x d = (ground arith, pot-apart s ids n x (ground arith))

abbrev pot_laws : LiquidityLaws pot 9 100 (λ ids x. IsDistinct ids)
pot_laws = record {
  available = funds_of;
  after = moved;
  held = λ x. x.0;
  held_exact = λ ids x d. refl;
  skips = λ s ids x d. d.1;
  quoted = λ s ids x d. refl;
  honoured = λ s ids n x d lt le. ground arith;
  paid = λ s ids n x d lt le. ground arith;
  apart = λ s ids n x d lt le. pot-apart s ids n x d;
  stays = λ s ids n x d lt le. d.1;
}

-- The holder 10 has all 3,000 shares; 1,000 is idle and 2,000 is in the strategy.
abbrev invested_storage : Storage
invested_storage = record running {
  strategy_list = some (50 ∷ []);
  tracked_balance = (50, pos 2_000) ∷ [];
  share_balance = (10, pos 3_000) ∷ [];
  total_supply = some (pos 3_000);
}

abbrev invested_world : World Pot
invested_world = world_of invested_storage (1_000, 2_000)

invested-IsSound : IsSound invested_storage
unfolding evaluation
invested-IsSound = ground arith

invested-InRange : InRange invested_storage.tracked_balance
unfolding lookup
invested-InRange a = ground arith

listed-IsDistinct : IsDistinct (50 ∷ [])
unfolding contains
listed-IsDistinct = ground arith

two-IsDistinct : IsDistinct (50 ∷ 51 ∷ [])
unfolding contains
two-IsDistinct = ground arith

worth_run : convert_to_assets pot (pos 3_000) invested_world ≡ ok (pos 3_000)
unfolding evaluation
worth_run = refl

pot_pays :
    (x : Pot)
    → IsDistinct []
    → 3_000 ≤ x.0
    → (x' : Pot) × (pot_token.transfer 9 100 10 (pos 3_000) x ≡ some x')
pot_pays x v le = ((x.0 - 3_000, x.1), ground arith)

owned_run : get_share_balance invested_storage 10 ≡ pos 3_000
unfolding lookup
owned_run = refl

redeem-returns_example :
    (w' : World Pot) × (redeem pot 10 (pos 3_000) invested_world ≡ ok (pos 3_000, w'))
    × PaysOut pot 10 (pos 3_000) (pos 3_000) invested_world w'
redeem-returns_example =
    redeem-returns pot_laws 10 3_000 3_000 3_000 3_000 invested_world invested-IsSound
      invested-InRange listed-IsDistinct refl refl refl refl owned_run refl (omega arith)
      (omega arith) (omega arith) (omega arith) worth_run (omega arith) (omega arith) pot_pays

-- The two steps of the loop of which the second finds nothing missing.
waterfall-drained_example :
    waterfall pot (50 ∷ 51 ∷ []) (pos 1_200) invested_world
    ≡ ok (tt, drained pot_laws (50 ∷ 51 ∷ []) 1_200 invested_world)
waterfall-drained_example =
    waterfall-drained pot_laws (50 ∷ 51 ∷ []) 1_200 invested_world refl two-IsDistinct
      invested-InRange (omega arith)
