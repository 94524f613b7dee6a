-- ===== src/Blend/Views.antt =====
-- The methods of contracts/contracts/blend-strategy/src/lib.rs that return one entry.
use tezoro_yield_aggregator.Base.{Bool}
use tezoro_yield_aggregator.Base.Map.{Address}
use tezoro_yield_aggregator.Base.Outcome.{Outcome, ok}
use tezoro_yield_aggregator.Common.{StrategyError}
use tezoro_yield_aggregator.Strategy.{Contract}
use tezoro_yield_aggregator.Blend.State
use tezoro_yield_aggregator.Blend.State.{Storage, Event}

module _ {X : Type 0} where
  abbrev pub asset : Contract Storage Event X → Outcome StrategyError Address
  asset w = State.get_asset w.storage

  abbrev pub vault : Contract Storage Event X → Outcome StrategyError Address
  vault w = State.get_vault w.storage

  abbrev pub blend_pool : Contract Storage Event X → Outcome StrategyError Address
  blend_pool w = State.get_blend_pool w.storage

  abbrev pub is_paused : Contract Storage Event X → Outcome StrategyError Bool
  is_paused w = ok (State.is_paused w.storage)
