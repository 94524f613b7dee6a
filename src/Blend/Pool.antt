-- ===== src/Blend/Pool.antt =====
-- A Blend lending pool, as the adapter calls it through `blend_contract_sdk::pool`. Its code is not
-- in the repository.
use tezoro_yield_aggregator.Base.{ℕ, Option, List}
use tezoro_yield_aggregator.Base.Int.{ℤ}
use tezoro_yield_aggregator.Base.Map.{Address, Map}
use tezoro_yield_aggregator.Common.{Token}

-- The fields of a reserve's `data` and `config` that the adapter reads.
pub record Reserve : Type 0 where
  pub index : ℕ
  pub b_rate : ℤ
  pub d_rate : ℤ
  pub b_supply : ℤ
  pub d_supply : ℤ
  pub backstop_credit : ℤ

pub record Request : Type 0 where
  pub request_type : ℕ
  pub address : Address
  pub amount : ℤ

-- Each method of the pool at an address; `none` is a call that fails. `get_positions` gives the
-- collateral of an account, by the index of the reserve.
pub record Pool (X : Type 0) : Type 0 where
  pub get_reserve : Address → Address → X → Option Reserve
  pub get_positions : Address → Address → X → Option (Map ℤ)
  pub submit : Address → Address → Address → Address → List Request → X → Option X
  pub submit_with_allowance : Address → Address → Address → Address → List Request → X → Option X
  pub claim : Address → Address → List ℕ → Address → X → Option (ℤ × X)

-- What the adapter calls.
pub record Services (X : Type 0) : Type 0 where
  pub token : Token X
  pub pool : Pool X
