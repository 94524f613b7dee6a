-- ===== src/Blend/Emergency.antt =====
-- `emergency_withdraw` of contracts/contracts/blend-strategy/src/lib.rs.
use tezoro_yield_aggregator.Base.{
  ◌≡◌, ◌≢◌, ◌⊎◌, ap, true, if◌then◌else◌, Option, none, some, ◌∷◌, arith,
}
use tezoro_yield_aggregator.Base.Int.{ℤ, pos, ◌*ℤ◌, ◌/ℤ◌, eqb_ℤ}
use tezoro_yield_aggregator.Base.Map.{Address, Map, balance}
use tezoro_yield_aggregator.Base.Outcome.{ok, value_or}
use tezoro_yield_aggregator.Base.Words
use tezoro_yield_aggregator.Strategy.{Contract}
use tezoro_yield_aggregator.Blend.State.{
  Storage, Event, get_vault, get_admin, get_blend_pool, get_tracked_balance,
}
use tezoro_yield_aggregator.Blend.Pool.{Services, Reserve}
use tezoro_yield_aggregator.Blend.Quotes.{query_pool_position, underlying, blend_rate_scalar}
use tezoro_yield_aggregator.Blend.Methods.{emergency_withdraw, pull_position, forget_balance, pull}
use tezoro_yield_aggregator.Blend.Funds.{released, reserve_of}

-- What the adapter takes its position to be: the collateral at the rate of the reserve, rounded
-- down, if the pool can be read, and what is tracked if it cannot.
abbrev pub IsPosition : ℤ → Option Reserve → Option (Map ℤ) → ℤ → Type 0
IsPosition tracked none _ amount = amount ≡ tracked
IsPosition tracked (some r) none amount = amount ≡ tracked
IsPosition tracked (some r) (some collateral) amount =
    amount ≡ balance r.index collateral *ℤ r.b_rate /ℤ blend_rate_scalar

zero-*ℤ : (rate : ℤ) → pos 0 *ℤ rate ≡ pos 0
unfolding ◌*ℤ◌
zero-*ℤ rate = ground arith

nothing_at_rate : (rate : ℤ) → pos 0 *ℤ rate /ℤ blend_rate_scalar ≡ pos 0
unfolding ◌/ℤ◌
nothing_at_rate rate = ap (λ z. z /ℤ blend_rate_scalar) (zero-*ℤ rate)

underlying-exact :
    (tokens rate : ℤ) {amount : ℤ}
    → underlying tokens rate ≡ ok amount
    → amount ≡ tokens *ℤ rate /ℤ blend_rate_scalar
unfolding underlying Words.mul Words.div
underlying-exact tokens rate e = ground arith

collateral-IsPosition :
    (tracked : ℤ) (r : Reserve) (collateral : Map ℤ) {amount : ℤ}
    → (let tokens = balance r.index collateral in
        (if eqb_ℤ tokens (pos 0) then ok (pos 0) else underlying tokens r.b_rate) ≡ ok amount)
    → IsPosition tracked (some r) (some collateral) amount
collateral-IsPosition tracked r collateral {amount} e = ground (
  arith,
  nothing_at_rate r.b_rate,
  underlying-exact (balance r.index collateral) r.b_rate {amount = amount},
)

pool-IsPosition :
    (tracked : ℤ) (read : Option Reserve) (held : Option (Map ℤ)) {amount : ℤ}
    → (elim read [
      | none ↦ ok tracked
      | some r ↦ elim held [
        | none ↦ ok tracked
        | some collateral ↦
            (let tokens = balance r.index collateral in
              if eqb_ℤ tokens (pos 0) then ok (pos 0) else underlying tokens r.b_rate)
      ]
    ])
      ≡ ok amount
    → IsPosition tracked read held amount
pool-IsPosition tracked none held e = ground arith
pool-IsPosition tracked (some r) none e = ground arith
pool-IsPosition tracked (some r) (some collateral) e = collateral-IsPosition tracked r collateral e

module _ {X : Type 0} (s : Services X) where
  -- The account of the adapter in the pool, by the index of the reserve.
  abbrev pub positions_of : Contract Storage Event X → Option (Map ℤ)
  positions_of w = s.pool.get_positions (value_or 0 (get_blend_pool w.storage)) w.self w.chain

  query_pool_position-IsPosition :
      (w : Contract Storage Event X) {amount : ℤ}
      → query_pool_position s w ≡ ok amount
      → IsPosition (get_tracked_balance w.storage) (reserve_of s w) (positions_of w) amount
  unfolding query_pool_position
  query_pool_position-IsPosition w {amount} e =
      pool-IsPosition (get_tracked_balance w.storage) (reserve_of s w) (positions_of w)
        (ground arith)

  -- An emergency withdrawal that returns was authorised by the vault or the admin. It takes the whole
  -- position out of the pool, which is what is tracked if the pool cannot be read, and hands it to
  -- the vault, also if the admin calls; an empty position makes no call of the pool or the token and
  -- publishes nothing. The tracked balance is zero afterwards, and nothing else of the storage
  -- changes.
  pub emergency_withdraw_pays :
      (caller : Address) (w : Contract Storage Event X) {paid : ℤ} {w' : Contract Storage Event X}
      → emergency_withdraw s caller w ≡ ok (paid, w')
      → (w.authorized caller ≡ true)
        × ((get_vault w.storage ≡ ok caller) ⊎ (get_admin w.storage ≡ ok caller))
        × IsPosition (get_tracked_balance w.storage) (reserve_of s w) (positions_of w) paid
        × (w'.storage ≡ record w.storage { tracked_balance = some (pos 0) })
        × (((paid ≡ pos 0) × (w'.chain ≡ w.chain) × (w'.events ≡ w.events))
            ⊎ ((paid ≢ pos 0)
                × (released s w (value_or 0 (get_vault w.storage)) paid ≡ some w'.chain)
                × (w'.events ≡ Event.emergency_withdraw paid caller ∷ w.events)))
  unfolding emergency_withdraw pull_position forget_balance pull
  emergency_withdraw_pays caller w {paid} {w'} e =
      let position : query_pool_position s w ≡ ok paid = ground arith in
      (
        ground arith,
        ground arith,
        query_pool_position-IsPosition w position,
        ground arith,
        ground arith,
      )
