-- ===== src/Net/Pools.antt =====
-- Blend lending pools that keep what their documentation says.
use tezoro_yield_aggregator.Base.{ℕ, ◌-◌, ◌*◌, ◌/◌, ◌≤◌, ◌<◌, ◌≡◌, ◌≢◌, Option, some}
use tezoro_yield_aggregator.Base.Int.{pos, ◌+ℤ◌}
use tezoro_yield_aggregator.Base.Map.{Address}
use tezoro_yield_aggregator.Blend.Pool.{Services, Reserve}
use tezoro_yield_aggregator.Blend.Methods.{one_request, request_withdraw_collateral}
use tezoro_yield_aggregator.Blend.Funds.{Holds, scalar}

module _ {T : Type 0} (s : Services T) (asset : Address) where
  -- One request for `n` of the asset by the account, paid to it.
  abbrev pub asks : Address → Address → ℕ → T → Option T
  asks pool account n x =
      s.pool.submit pool account account account
        (one_request s request_withdraw_collateral asset (pos n)) x

  -- What the documentation of a Blend pool says, of withdrawals of the asset: a position is paid
  -- out as far as the pool has not lent the asset out; the payment goes to the account and comes
  -- from the pool; other pools do not notice, nor does any pool notice a transfer of tokens.
  -- `claim` is what the position of an account in a pool is worth.
  pub record LendingPools : Type 0 where
    pub claim : Address → Address → T → ℕ
    pub pays :
        (pool account n : ℕ) (x : T) (r : Reserve) (b_supply b_rate d_supply d_rate : ℕ)
        → s.pool.get_reserve pool asset x ≡ some r
        → Holds r b_supply b_rate d_supply d_rate
        → 0 < n
        → n ≤ claim pool account x
        → n ≤ b_supply * b_rate / scalar - d_supply * d_rate / scalar
        → (x' : T) × (asks pool account n x ≡ some x')
    pub moves :
        (pool account n : ℕ) (x x' : T)
        → pool ≢ account
        → asks pool account n x ≡ some x'
        → s.token.balance asset account x' ≡ s.token.balance asset account x +ℤ pos n
    pub others :
        (pool account n id : ℕ) (x x' : T)
        → id ≢ pool
        → id ≢ account
        → asks pool account n x ≡ some x'
        → s.token.balance asset id x' ≡ s.token.balance asset id x
    pub apart :
        (pool account n other : ℕ) (x x' : T)
        → other ≢ pool
        → asks pool account n x ≡ some x'
        → (s.pool.get_reserve other asset x' ≡ s.pool.get_reserve other asset x)
          × ((holder : Address) → claim other holder x' ≡ claim other holder x)
    pub unmoved :
        (pool from to n : ℕ) (x x' : T)
        → s.token.transfer asset from to (pos n) x ≡ some x'
        → (s.pool.get_reserve pool asset x' ≡ s.pool.get_reserve pool asset x)
          × ((holder : Address) → claim pool holder x' ≡ claim pool holder x)
