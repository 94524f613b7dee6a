-- ===== src/Blend/Supply.antt =====
-- `deposit` of contracts/contracts/blend-strategy/src/lib.rs: what it hands to the pool.
use tezoro_yield_aggregator.Base.{◌+◌, ◌<◌, ◌≡◌, true, false, Option, none, some, arith}
use tezoro_yield_aggregator.Base.Int.{ℤ, pos, ◌+ℤ◌, ◌≤ℤ◌}
use tezoro_yield_aggregator.Base.Map.{Address}
use tezoro_yield_aggregator.Base.Outcome.{ok, value_or}
use tezoro_yield_aggregator.Base.Words
use tezoro_yield_aggregator.Base.Words.{u32_bound}
use tezoro_yield_aggregator.Strategy.{Contract}
use tezoro_yield_aggregator.Blend.State.{
  Storage, Event, get_asset, get_blend_pool, get_tracked_balance, get_approval_buffer, is_paused,
}
use tezoro_yield_aggregator.Blend.Pool.{Services}
use tezoro_yield_aggregator.Blend.Methods.{deposit, one_request, request_supply_collateral}

module _ {X : Type 0} (s : Services X) where
  -- An approval of the pool for `amount` until the buffer has passed, then one supply request of
  -- the same amount, from the adapter's own tokens.
  abbrev pub supplied : Contract Storage Event X → ℤ → Option X
  supplied w amount =
      let asset = value_or 0 (get_asset w.storage) in
      let pool = value_or 0 (get_blend_pool w.storage) in
      let until = w.sequence + get_approval_buffer w.storage in
      elim (s.token.approve asset w.self pool amount until w.chain) [
        | none ↦ none
        | some x ↦
            s.pool.submit_with_allowance pool w.self w.self w.self
              (one_request s request_supply_collateral asset amount) x
      ]

  -- A deposit that returns was authorised by the vault while the adapter was not paused. It approves
  -- the pool for exactly the positive amount, for the ledgers of the buffer, which do not overflow,
  -- supplies the amount, adds it to the tracked balance and writes nothing else.
  pub deposit_supplies :
      (caller : Address) (amount : ℤ) (w : Contract Storage Event X) {w' : Contract Storage Event X}
      → deposit s caller amount w ≡ ok (tt, w')
      → (w.authorized caller ≡ true)
        × (w.storage.vault ≡ some caller)
        × (is_paused w.storage ≡ false)
        × (pos 1 ≤ℤ amount)
        × (w.sequence + get_approval_buffer w.storage < u32_bound)
        × (supplied w amount ≡ some w'.chain)
        × (w'.storage
            ≡ record w.storage { tracked_balance = some (get_tracked_balance w.storage +ℤ amount) })
  unfolding deposit Words.add Words.add_u32
  deposit_supplies caller amount w e = ground arith
