-- ===== src/Common.antt =====
-- contracts/contracts/tezoro-common: the errors, the constants and the interface that the vault
-- and its strategies share, and the token contract that both call.
pub mod Lifetimes
pub mod Timelock
use tezoro_yield_aggregator.Base.{ℕ, Bool, Option}
use tezoro_yield_aggregator.Base.Int.{ℤ}
use tezoro_yield_aggregator.Base.Map.{Address}
use tezoro_yield_aggregator.Base.Outcome.{Outcome}

pub data StrategyError : Type 0 where
  not_initialized already_initialized unauthorized insufficient_balance zero_amount : StrategyError
  unhealthy invalid_bps paused upgrade_not_scheduled upgrade_too_early : StrategyError

abbrev pub max_bps : ℕ
max_bps = 10_000

-- A `BytesN<32>` is only stored, compared and handed on.
abbrev pub Hash : Type 0
Hash = ℕ

-- The SEP-41 token contracts, by the address of the asset. Their code is not in the repository.
-- `X` is the state of all the contracts that are not the one at hand.
pub record Token (X : Type 0) : Type 0 where
  pub balance : Address → Address → X → ℤ
  pub transfer : Address → Address → Address → ℤ → X → Option X
  pub approve : Address → Address → Address → ℤ → ℕ → X → Option X

-- One strategy contract, as a caller sees it: what a method returns, and the state it leaves. A
-- method that does not change the state has no state in its result.
pub record StrategyInterface (X : Type 0) : Type 0 where
  pub deposit : Address → ℤ → X → Outcome StrategyError X
  pub withdraw : Address → ℤ → X → Outcome StrategyError (ℤ × X)
  pub emergency_withdraw : Address → X → Outcome StrategyError (ℤ × X)
  pub balance_of : X → Outcome StrategyError ℤ
  pub available_liquidity : X → Outcome StrategyError ℤ
  pub is_healthy : X → Outcome StrategyError Bool
  pub asset : X → Outcome StrategyError Address

-- What the vault calls: the token contracts, and the strategy at each address.
pub record Chain (X : Type 0) : Type 0 where
  pub token : Token X
  pub strategy : Address → StrategyInterface X
