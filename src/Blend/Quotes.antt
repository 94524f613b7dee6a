-- ===== src/Blend/Quotes.antt =====
-- What contracts/contracts/blend-strategy/src/lib.rs reads off the pool: its health, the available
-- liquidity and the adapter's position.
use tezoro_yield_aggregator.Base.{Bool, true, false, not, ◌&&◌, if◌then◌else◌, Option, none, some}
use tezoro_yield_aggregator.Base.Int.{ℤ, pos, ltb_ℤ, leb_ℤ, eqb_ℤ}
use tezoro_yield_aggregator.Base.Map.{balance}
use tezoro_yield_aggregator.Base.Outcome.{Outcome, ok, ◌>>=◌}
use tezoro_yield_aggregator.Base.Words
use tezoro_yield_aggregator.Common.{StrategyError}
use tezoro_yield_aggregator.Strategy.{Contract}
use tezoro_yield_aggregator.Blend.State.{
  Storage, Event, get_asset, get_blend_pool, get_tracked_balance, get_max_utilization_bps,
  get_min_backstop_bps,
}
use tezoro_yield_aggregator.Blend.Pool.{Services, Reserve}

abbrev pub blend_rate_scalar : ℤ
blend_rate_scalar = pos 1_000_000_000_000

abbrev pub available_liquidity_rounding_margin : ℤ
available_liquidity_rounding_margin = pos 2

unfoldable pub apply_rounding_margin : ℤ → Outcome StrategyError ℤ
apply_rounding_margin value = do
  trimmed ← Words.sub value available_liquidity_rounding_margin
  ok (if ltb_ℤ trimmed (pos 0) then pos 0 else trimmed)

-- `part * 10_000 / whole`
unfoldable pub ratio_bps : ℤ → ℤ → Outcome StrategyError ℤ
ratio_bps part whole = do scaled ← Words.mul part (pos 10_000); Words.div scaled whole

-- `tokens * rate / BLEND_RATE_SCALAR`
unfoldable pub underlying : ℤ → ℤ → Outcome StrategyError ℤ
underlying tokens rate = do scaled ← Words.mul tokens rate; Words.div scaled blend_rate_scalar

-- The first test of `is_healthy`: with nothing supplied there is no ratio to form.
unfoldable pub utilization_ok : Storage → Reserve → Outcome StrategyError Bool
utilization_ok st r =
    if ltb_ℤ (pos 0) r.b_supply
    then (do
      utilization_bps ← ratio_bps r.d_supply r.b_supply
      ok (leb_ℤ utilization_bps (pos (get_max_utilization_bps st))))
    else ok true

-- The last test of `is_healthy`.
unfoldable pub coverage_ok : Storage → Reserve → Outcome StrategyError Bool
coverage_ok st r =
    if ltb_ℤ (pos 0) r.b_supply && leb_ℤ (pos 0) r.backstop_credit
    then (do
      coverage_bps ← ratio_bps r.backstop_credit r.b_supply
      ok (leb_ℤ (pos (get_min_backstop_bps st)) coverage_bps))
    else ok true

-- `is_healthy` of a reserve that was read; a test that fails ends it.
unfoldable pub reserve_healthy : Storage → Reserve → Outcome StrategyError Bool
reserve_healthy st r = do
  utilized ← utilization_ok st r
  if not utilized
      then ok false
      else if ltb_ℤ r.backstop_credit (pos 0)
      then ok false
      else coverage_ok st r

-- An unreachable pool is unhealthy.
unfoldable pub health_of : Storage → Option Reserve → Outcome StrategyError Bool
health_of st none = ok false
health_of st (some r) = reserve_healthy st r

-- `available_liquidity` of a reserve that was read.
unfoldable pub liquidity_in : ℤ → Reserve → Outcome StrategyError ℤ
liquidity_in tracked r = do
  pool_supplied ← underlying r.b_supply r.b_rate
  pool_borrowed ← underlying r.d_supply r.d_rate
  pool_available ← Words.sub pool_supplied pool_borrowed
  apply_rounding_margin (if ltb_ℤ pool_available tracked then pool_available else tracked)

-- An unreachable pool leaves the tracked balance less the margin.
unfoldable pub liquidity_of : ℤ → Option Reserve → Outcome StrategyError ℤ
liquidity_of tracked none = apply_rounding_margin tracked
liquidity_of tracked (some r) = liquidity_in tracked r

module _ {X : Type 0} (s : Services X) where
  unfoldable pub is_healthy : Contract Storage Event X → Outcome StrategyError Bool
  is_healthy w = do
    pool ← get_blend_pool w.storage
    asset ← get_asset w.storage
    health_of w.storage (s.pool.get_reserve pool asset w.chain)

  unfoldable pub available_liquidity : Contract Storage Event X → Outcome StrategyError ℤ
  available_liquidity w = if eqb_ℤ (get_tracked_balance w.storage) (pos 0) then ok (pos 0) else (do
    pool ← get_blend_pool w.storage
    asset ← get_asset w.storage
    liquidity_of (get_tracked_balance w.storage) (s.pool.get_reserve pool asset w.chain))

  -- The value of the collateral; an unreachable pool leaves the tracked balance.
  unfoldable pub query_pool_position : Contract Storage Event X → Outcome StrategyError ℤ
  query_pool_position w = do
    pool ← get_blend_pool w.storage
    asset ← get_asset w.storage
    elim (s.pool.get_reserve pool asset w.chain) [
      | none ↦ ok (get_tracked_balance w.storage)
      | some r ↦ elim (s.pool.get_positions pool w.self w.chain) [
        | none ↦ ok (get_tracked_balance w.storage)
        | some collateral ↦
            if eqb_ℤ (balance r.index collateral) (pos 0)
            then ok (pos 0)
            else underlying (balance r.index collateral) r.b_rate
      ]
    ]
