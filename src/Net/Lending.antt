-- ===== src/Net/Lending.antt =====
-- A Blend adapter that quotes what its pool can pay: it pays the vault what it quotes.
use tezoro_yield_aggregator.Base.{
  ℕ, min, ◌+◌, ◌-◌, ◌*◌, ◌/◌, ◌≤◌, ◌<◌, ◌≡◌, ◌≢◌, refl, ap, none, some, arith,
}
use tezoro_yield_aggregator.Base.Int.{ℤ, pos, pos_part, ◌+ℤ◌, ◌≤ℤ◌, +ℤ_parts}
use tezoro_yield_aggregator.Base.Map.{Address, lookup, insert, lookup-insert}
use tezoro_yield_aggregator.Base.Outcome.{ok, value_or}
use tezoro_yield_aggregator.Base.Words.{i128_bound}
use tezoro_yield_aggregator.Blend.State.{Storage, Event, get_tracked_balance, set_tracked_balance}
use tezoro_yield_aggregator.Blend.Pool.{Services, Reserve}
use tezoro_yield_aggregator.Blend.Quotes.{available_liquidity}
use tezoro_yield_aggregator.Blend.Funds.{
  Holds, scalar, available_liquidity-exact, withdraw-returns, released,
}
use tezoro_yield_aggregator.Net.{Net, context, adapter}
use tezoro_yield_aggregator.Net.Promises.{PayingToken}
use tezoro_yield_aggregator.Net.Pools.{LendingPools, asks}

raised_covers : (held : ℤ) (n : ℕ) → pos 0 ≤ℤ held → pos n ≤ℤ held +ℤ pos n
raised_covers held n nonneg = ground (arith, +ℤ_parts held (pos n))

module _ {T : Type 0} (s : Services T) (asset vault : Address) (pools : LendingPools s asset) where
  -- An adapter that serves the vault: it can read a solvent reserve of its pool, its quote is
  -- computed without overflow, and its position is worth what it records, up to the two units of
  -- the margin that are lost to rounding.
  pub record Lends (id : Address) (n : Net Storage T) : Type 0 where
    pub state : Storage
    pub pool : Address
    pub tracked : ℕ
    pub b_supply : ℕ
    pub b_rate : ℕ
    pub d_supply : ℕ
    pub d_rate : ℕ
    pub quote : ℕ
    pub reserve : Reserve
    pub deployed : lookup id n.contracts ≡ some state
    pub for_vault : state.vault ≡ some vault
    pub of_asset : state.asset ≡ some asset
    pub in_pool : state.blend_pool ≡ some pool
    pub not_pool : pool ≢ id
    pub not_vault : pool ≢ vault
    pub tracks : get_tracked_balance state ≡ pos tracked
    pub tracked_small : tracked < i128_bound
    pub read : s.pool.get_reserve pool asset n.outside ≡ some reserve
    pub holds : Holds reserve b_supply b_rate d_supply d_rate
    pub solvent : d_supply * d_rate / scalar ≤ b_supply * b_rate / scalar
    pub quotes : available_liquidity s (context {E = Event} id id state n) ≡ ok (pos quote)
    pub covered : tracked ≤ pools.claim pool id n.outside + 2

  -- What the adapter at `id` quotes.
  abbrev pub quoted_by : Address → Net Storage T → ℕ
  quoted_by id n = elim (lookup id n.contracts) [
    | none ↦ 0
    | some st ↦ pos_part (value_or (pos 0) (available_liquidity s (context {E = Event} id id st n)))
  ]

  -- The state after the adapter at `id` paid out.
  abbrev pub drawn : Address → ℕ → Net Storage T → Net Storage T
  drawn id amount n = elim (lookup id n.contracts) [
    | none ↦ n
    | some st ↦ elim (released s (context {E = Event} vault id st n) vault (pos amount)) [
      | none ↦ n
      | some x ↦ record n {
        outside = x;
        contracts =
            insert id (set_tracked_balance (pos (pos_part (get_tracked_balance st) - amount)) st)
              n.contracts;
      }
    ]
  ]

  -- The quote is within the position and within what the pool has not lent out.
  quote_fits :
      (id : Address) (n : Net Storage T) (l : Lends id n)
      → 0 < l.quote
      → (l.quote ≤ l.tracked)
        × (l.quote ≤ pools.claim l.pool id n.outside)
        × (l.quote ≤ l.b_supply * l.b_rate / scalar - l.d_supply * l.d_rate / scalar)
  quote_fits id n l gt =
      let exact =
        available_liquidity-exact s (context {E = Event} id id l.state n) l.tracked l.b_supply
          l.b_rate l.d_supply l.d_rate l.reserve {q = pos l.quote} l.tracks
          (rw (l.in_pool, l.of_asset) l.read) l.holds l.solvent l.quotes in
      let cut : l.quote
          ≡ min l.tracked (l.b_supply * l.b_rate / scalar - l.d_supply * l.d_rate / scalar) - 2 =
        ap pos_part exact in
      ground (arith, cut, l.covered)

  -- The two calls behind a withdrawal up to the quote.
  draws :
      (id : Address) (amount : ℕ) (n : Net Storage T) (l : Lends id n)
      → PayingToken s.token
      → id ≢ vault
      → 0 < amount
      → amount ≤ l.quote
      → (x y : T) × (asks s asset l.pool id amount n.outside ≡ some x)
        × (s.token.transfer asset id vault (pos amount) x ≡ some y)
  draws id amount n l token ne gt le =
      let (_, owned, free) = quote_fits id n l (omega (arith, gt, le)) in
      let (x, asked) =
        pools.pays l.pool id amount n.outside l.reserve l.b_supply l.b_rate l.d_supply l.d_rate
          l.read l.holds gt (omega (arith, owned, le)) (omega (arith, free, le)) in
      let (y, sent) = token.covered asset id vault amount x (
        rw (pools.moves l.pool id amount n.outside x l.not_pool asked) (
          raised_covers (s.token.balance asset id n.outside) amount
            (token.nonneg asset id n.outside))) in
      (x, y, asked, sent)

  released-draws :
      (id : Address) (amount : ℕ) (n : Net Storage T) (l : Lends id n) (x y : T)
      → asks s asset l.pool id amount n.outside ≡ some x
      → s.token.transfer asset id vault (pos amount) x ≡ some y
      → released s (context {E = Event} vault id l.state n) vault (pos amount) ≡ some y
  released-draws id amount n l x y asked sent = ground (arith, l.in_pool, l.of_asset, asked, sent)

  -- The adapter pays the vault any amount up to its quote.
  pub withdraw-drawn :
      (id : Address) (amount : ℕ) (n : Net Storage T) (l : Lends id n)
      → PayingToken s.token
      → id ≢ vault
      → 0 < amount
      → amount ≤ l.quote
      → (adapter s vault id).withdraw vault (pos amount) n ≡ ok (pos amount, drawn id amount n)
  unfolding available_liquidity
  withdraw-drawn id amount n l token ne gt le =
      let (x, y, asked, sent) = draws id amount n l token ne gt le in
      let gives = released-draws id amount n l x y asked sent in
      let (c, runs, chain, store) =
        withdraw-returns s vault amount l.tracked (context vault id l.state n) {q = pos l.quote}
          {x = y} (ground arith) l.for_vault l.tracks l.tracked_small l.quotes gt
          (omega (arith, le)) (rw l.of_asset refl) (rw l.in_pool refl) gives in
      ground (arith, l.deployed, gives, runs, chain, store, l.tracks)

  -- The state after that.
  pub drawn-sends :
      (id : Address) (amount : ℕ) (n : Net Storage T) (l : Lends id n)
      → PayingToken s.token
      → id ≢ vault
      → 0 < amount
      → amount ≤ l.quote
      → (x y : T) × (asks s asset l.pool id amount n.outside ≡ some x)
        × (s.token.transfer asset id vault (pos amount) x ≡ some y)
        × ((drawn id amount n).outside ≡ y)
        × ((j : Address) → j ≢ id → lookup j (drawn id amount n).contracts ≡ lookup j n.contracts)
  drawn-sends id amount n l token ne gt le =
      let (x, y, asked, sent) = draws id amount n l token ne gt le in
      let gives = released-draws id amount n l x y asked sent in
      let spent =
        set_tracked_balance (pos (pos_part (get_tracked_balance l.state) - amount)) l.state in
      (
        x,
        y,
        asked,
        sent,
        ground (arith, l.deployed, gives),
        λ j other. ground (arith, l.deployed, gives, lookup-insert j id spent n.contracts),
      )
