-- ===== src/Blend/Funds.antt =====
-- The funds of contracts/contracts/blend-strategy: what a withdrawal and an emergency withdrawal
-- take from the pool, and how much the adapter says is available.
use tezoro_yield_aggregator.Base.{
  ℕ, refl, ◌<◌, ◌∷◌, ◌-◌, ◌*◌, ◌/◌, ◌≤◌, ◌≡◌, ◌⊎◌, true, Option, none, some, min, if◌then◌else◌,
  arith,
}
use tezoro_yield_aggregator.Base.Int.{
  ℤ, pos, +ℤ_parts, ◌+ℤ◌, ◌-ℤ◌, ◌≤ℤ◌, ltb_ℤ, pos-*ℤ, pos-/ℤ, pos--ℤ,
}
use tezoro_yield_aggregator.Base.Map.{Address}
use tezoro_yield_aggregator.Base.Outcome.{ok, value_or}
use tezoro_yield_aggregator.Base.Words
use tezoro_yield_aggregator.Base.Words.{i128_bound}
use tezoro_yield_aggregator.Common.{StrategyError}
use tezoro_yield_aggregator.Strategy.{Contract}
use tezoro_yield_aggregator.Blend.State.{
  Storage, Event, set_tracked_balance, get_asset, get_blend_pool, get_tracked_balance,
}
use tezoro_yield_aggregator.Blend.Pool.{Services, Reserve}
use tezoro_yield_aggregator.Blend.Quotes.{
  available_liquidity, liquidity_of, liquidity_in, apply_rounding_margin, underlying,
}
use tezoro_yield_aggregator.Blend.Methods.{withdraw, pull, one_request, request_withdraw_collateral}

module _ {X : Type 0} (s : Services X) where
  -- One withdrawal request to the pool, then one transfer of the asset, both of `amount`.
  abbrev pub released : Contract Storage Event X → Address → ℤ → Option X
  released w to amount =
      let asset = value_or 0 (get_asset w.storage) in
      let pool = value_or 0 (get_blend_pool w.storage) in
      elim (s.pool.submit pool w.self w.self w.self
        (one_request s request_withdraw_collateral asset amount) w.chain) [
          | none ↦ none
          | some x ↦ s.token.transfer asset w.self to amount x
        ]

  -- A withdrawal that returns was authorised by the vault: it takes the smaller of the amount and
  -- the tracked balance out of the pool, hands it to the vault, and takes it off the tracked balance.
  pub withdraw_pays :
      (caller : Address) (amount : ℤ) (w : Contract Storage Event X) {paid : ℤ}
      {w' : Contract Storage Event X}
      → withdraw s caller amount w ≡ ok (paid, w')
      → (w.authorized caller ≡ true)
        × (w.storage.vault ≡ some caller)
        × (paid ≡ (
            if ltb_ℤ (get_tracked_balance w.storage) amount
            then get_tracked_balance w.storage
            else amount))
        × (released w caller paid ≡ some w'.chain)
        × (w'.storage
            ≡ record w.storage { tracked_balance = some (get_tracked_balance w.storage -ℤ paid) })
  unfolding withdraw pull Words.sub
  withdraw_pays caller amount w e = ground arith

-- A reserve whose amounts and rates are the natural numbers given.
abbrev pub Holds : Reserve → ℕ → ℕ → ℕ → ℕ → Type 0
Holds r b_supply b_rate d_supply d_rate =
    (r.b_supply ≡ pos b_supply)
    × (r.b_rate ≡ pos b_rate)
    × (r.d_supply ≡ pos d_supply)
    × (r.d_rate ≡ pos d_rate)

-- `BLEND_RATE_SCALAR`
abbrev pub scalar : ℕ
scalar = 1_000_000_000_000

margin-exact : (n : ℕ) {q : ℤ} → apply_rounding_margin (pos n) ≡ ok q → q ≡ pos (n - 2)
unfolding apply_rounding_margin Words.sub ◌-ℤ◌
margin-exact n e = ground arith

underlying-exact : (t r : ℕ) {q : ℤ} → underlying (pos t) (pos r) ≡ ok q → q ≡ pos (t * r / scalar)
unfolding underlying Words.mul Words.div
underlying-exact t r e = ground (arith, pos-*ℤ t r, pos-/ℤ (t * r) scalar)

liquidity_in-exact :
    (tracked b_supply b_rate d_supply d_rate : ℕ) (r : Reserve) {q : ℤ}
    → Holds r b_supply b_rate d_supply d_rate
    → liquidity_in (pos tracked) r ≡ ok q
    → d_supply * d_rate / scalar ≤ b_supply * b_rate / scalar
    → q ≡ pos (min tracked (b_supply * b_rate / scalar - d_supply * d_rate / scalar) - 2)
unfolding liquidity_in Words.sub
liquidity_in-exact tracked b_supply b_rate d_supply d_rate r {q} holds e le = ground (
  arith,
  underlying-exact b_supply b_rate {q = value_or (pos 0) (underlying r.b_supply r.b_rate)},
  underlying-exact d_supply d_rate {q = value_or (pos 0) (underlying r.d_supply r.d_rate)},
  pos--ℤ (b_supply * b_rate / scalar) (d_supply * d_rate / scalar) le,
  margin-exact tracked {q = q},
  margin-exact (b_supply * b_rate / scalar - d_supply * d_rate / scalar) {q = q},
)

margin_lt :
    (v : ℤ) {q : ℤ}
    → apply_rounding_margin v ≡ ok q
    → (pos 0 ≤ℤ q) × ((q ≡ pos 0) ⊎ (q +ℤ pos 2 ≤ℤ v))
unfolding apply_rounding_margin Words.sub ◌-ℤ◌ ◌+ℤ◌
margin_lt v e = ground arith

liquidity_of_lt :
    (tracked : ℤ) (read : Option Reserve) {q : ℤ}
    → pos 0 ≤ℤ tracked
    → liquidity_of tracked read ≡ ok q
    → (pos 0 ≤ℤ q) × (((tracked ≡ pos 0) × (q ≡ pos 0)) ⊎ (q +ℤ pos 1 ≤ℤ tracked))
unfolding liquidity_of liquidity_in ◌+ℤ◌
liquidity_of_lt tracked none {q} t e = ground (arith, margin_lt tracked {q = q})
liquidity_of_lt tracked (some r) {q} t e =
    let supplied : ℤ = value_or (pos 0) (underlying r.b_supply r.b_rate) in
    let borrowed : ℤ = value_or (pos 0) (underlying r.d_supply r.d_rate) in
    let free : ℤ = value_or {E = StrategyError} (pos 0) (Words.sub supplied borrowed) in
    ground (arith, margin_lt tracked {q = q}, margin_lt free {q = q})

module _ {X : Type 0} (s : Services X) where
  -- The reserve that the adapter reads.
  abbrev pub reserve_of : Contract Storage Event X → Option Reserve
  reserve_of w =
      s.pool.get_reserve (value_or 0 (get_blend_pool w.storage)) (value_or 0 (get_asset w.storage))
        w.chain

  -- For a solvent reserve that can be read, the available liquidity is the smaller of the tracked
  -- balance and what the pool has not lent out, less a margin of two units, and never negative.
  pub available_liquidity-exact :
      (w : Contract Storage Event X) (tracked b_supply b_rate d_supply d_rate : ℕ) (r : Reserve)
      {q : ℤ}
      → get_tracked_balance w.storage ≡ pos tracked
      → reserve_of w ≡ some r
      → Holds r b_supply b_rate d_supply d_rate
      → d_supply * d_rate / scalar ≤ b_supply * b_rate / scalar
      → available_liquidity s w ≡ ok q
      → q ≡ pos (min tracked (b_supply * b_rate / scalar - d_supply * d_rate / scalar) - 2)
  unfolding available_liquidity liquidity_of
  available_liquidity-exact w tracked b_supply b_rate d_supply d_rate r {q} t read holds le e =
      ground (arith, liquidity_in-exact tracked b_supply b_rate d_supply d_rate r {q = q} holds)

  -- Whatever the pool says, and also if it cannot be read: the available liquidity of a nonnegative
  -- position is not negative; it is zero for an empty position, and below the tracked balance
  -- otherwise.
  pub available_liquidity_lt :
      (w : Contract Storage Event X) {q : ℤ}
      → pos 0 ≤ℤ get_tracked_balance w.storage
      → available_liquidity s w ≡ ok q
      → (pos 0 ≤ℤ q)
        × (((get_tracked_balance w.storage ≡ pos 0) × (q ≡ pos 0))
            ⊎ (q +ℤ pos 1 ≤ℤ get_tracked_balance w.storage))
  unfolding available_liquidity ◌+ℤ◌
  available_liquidity_lt w {q} t e =
      ground (arith, liquidity_of_lt (get_tracked_balance w.storage) (reserve_of w) {q = q} t)

module _ {X : Type 0} (s : Services X) where
  -- The adapter honours its quote: to the vault it pays out in full any amount up to the available
  -- liquidity, paused or not, if the pool and the token serve the two calls that this takes, and
  -- takes the amount off the tracked balance.
  pub withdraw-returns :
      (caller : Address) (amount tracked : ℕ) (w : Contract Storage Event X) {q : ℤ} {x : X}
      → w.authorized caller ≡ true
      → w.storage.vault ≡ some caller
      → get_tracked_balance w.storage ≡ pos tracked
      → tracked < i128_bound
      → available_liquidity s w ≡ ok q
      → 0 < amount
      → pos amount ≤ℤ q
      → w.storage.asset ≡ some (value_or 0 (get_asset w.storage))
      → w.storage.blend_pool ≡ some (value_or 0 (get_blend_pool w.storage))
      → released s w caller (pos amount) ≡ some x
      → (w' : Contract Storage Event X) × (withdraw s caller (pos amount) w ≡ ok (pos amount, w'))
        × (w'.chain ≡ x)
        × (w'.storage ≡ set_tracked_balance (pos (tracked - amount)) w.storage)
  unfolding withdraw pull Words.sub
  withdraw-returns caller amount tracked w {q = q} {x = x} auth vault t small quote gt le asset pool
        serves =
      let (_, below) = available_liquidity_lt s w {q = q} (rw t (omega arith)) quote in
      (
        record w {
          storage = set_tracked_balance (pos (tracked - amount)) w.storage;
          chain = x;
          events = Event.withdraw (pos amount) (pos amount) ∷ w.events;
        },
        ground (arith, below, +ℤ_parts q (pos 1), pos--ℤ tracked amount),
        refl,
        refl,
      )
