-- ===== src/Net/Adapters.antt =====
-- Blend adapters in different pools: a withdrawal from one leaves the others as they are.
pub mod Redemption
use tezoro_yield_aggregator.Base.{
  ℕ, ◌+◌, ◌≤◌, ◌<◌, ◌≡◌, ◌≢◌, refl, sym, ap, ◌∙◌, true, false, none, some, List, [], ◌∷◌, arith,
}
use tezoro_yield_aggregator.Base.Int.{pos, nonneg-eq-pos, pos_part, ◌+ℤ◌, pos-+ℤ}
use tezoro_yield_aggregator.Base.Map.{Address, lookup}
use tezoro_yield_aggregator.Base.Outcome.{ok}
use tezoro_yield_aggregator.Base.Words.{i128_bound}
use tezoro_yield_aggregator.Blend.State.{Storage, Event}
use tezoro_yield_aggregator.Blend.Pool.{Services}
use tezoro_yield_aggregator.Blend.Quotes.{available_liquidity}
use tezoro_yield_aggregator.Net.{Net, context, adapter, adapter_chain}
use tezoro_yield_aggregator.Net.Promises.{PayingToken}
use tezoro_yield_aggregator.Net.Pools.{LendingPools}
use tezoro_yield_aggregator.Net.Lending.{Lends, quoted_by, drawn, withdraw-drawn, drawn-sends}
use tezoro_yield_aggregator.Vault.{World}
use tezoro_yield_aggregator.Vault.Store.{
  contains, get_strategies, get_share_balance, get_total_supply, is_initialized,
}
use tezoro_yield_aggregator.Vault.Assets.{convert_to_assets}
use tezoro_yield_aggregator.Vault.Soundness.{IsSound}
use tezoro_yield_aggregator.Vault.Redeem.{redeem}
use tezoro_yield_aggregator.Vault.Redeem.Liquidity.{LiquidityLaws, InRange, All, reachable}
use tezoro_yield_aggregator.Vault.Redeem.Liveness.{redeem-returns}

module _ {T : Type 0} (s : Services T) (asset vault : Address) (pools : LendingPools s asset) where
  -- None of the adapters of the list is in the pool.
  abbrev pub OutsidePool : Address → List Address → Net Storage T → Type 0
  OutsidePool pool [] n = Unit
  OutsidePool pool (j ∷ ids) n =
      ((st : Storage) → lookup j n.contracts ≡ some st → st.blend_pool ≢ some pool)
      × OutsidePool pool ids n

  -- All strategies of the list are different adapters in different pools that serve the vault.
  abbrev pub AllLend : List Address → Net Storage T → Type 0
  AllLend [] n = Unit
  AllLend (id ∷ ids) n =
      (contains id ids ≡ false)
      × (id ≢ vault)
      × ((l : Lends s asset vault pools id n) × OutsidePool l.pool ids n)
      × AllLend ids n

  -- What the adapters of the list quote together.
  abbrev pub quoted_total : List Address → Net Storage T → ℕ
  quoted_total [] n = 0
  quoted_total (id ∷ ids) n = quoted_by s asset vault pools id n + quoted_total ids n

  pub quoted-Lends :
      (id : Address) (n : Net Storage T) (l : Lends s asset vault pools id n)
      → quoted_by s asset vault pools id n ≡ l.quote
  quoted-Lends id n l = ground (arith, l.deployed, l.quotes)

  -- The quote depends on the pool through its reserve only.
  available_liquidity-reads :
      (id pool : Address) (st : Storage) (n n' : Net Storage T)
      → st.blend_pool ≡ some pool
      → st.asset ≡ some asset
      → s.pool.get_reserve pool asset n'.outside ≡ s.pool.get_reserve pool asset n.outside
      → available_liquidity s (context {E = Event} id id st n')
        ≡ available_liquidity s (context {E = Event} id id st n)
  unfolding available_liquidity
  available_liquidity-reads id pool st n n' p a e = ground (arith, p, a, e)

  pub drawn-Lends :
      (id j : Address) (amount : ℕ) (n : Net Storage T) (l : Lends s asset vault pools id n)
      (u : Lends s asset vault pools j n)
      → PayingToken s.token
      → id ≢ vault
      → j ≢ id
      → u.pool ≢ l.pool
      → 0 < amount
      → amount ≤ l.quote
      → (u' : Lends s asset vault pools j (drawn s asset vault pools id amount n)) × (u'.pool
          ≡ u.pool)
        × (u'.quote ≡ u.quote)
  drawn-Lends id j amount n l u token ne other apart gt le =
      let (x, y, asked, sent, outside, kept) =
        drawn-sends s asset vault pools id amount n l token ne gt le in
      let (read1, claim1) = pools.apart l.pool id amount u.pool n.outside x apart asked in
      let (read2, claim2) = pools.unmoved u.pool id vault amount x y sent in
      let n' = drawn s asset vault pools id amount n in
      let read : s.pool.get_reserve u.pool asset n'.outside
          ≡ s.pool.get_reserve u.pool asset n.outside =
        rw outside (read2 ∙ read1) in
      let claim : pools.claim u.pool j n'.outside ≡ pools.claim u.pool j n.outside =
        rw outside (claim2 j ∙ claim1 j) in
      (
        record {
          state = u.state;
          pool = u.pool;
          tracked = u.tracked;
          b_supply = u.b_supply;
          b_rate = u.b_rate;
          d_supply = u.d_supply;
          d_rate = u.d_rate;
          quote = u.quote;
          reserve = u.reserve;
          deployed = kept j other ∙ u.deployed;
          for_vault = u.for_vault;
          of_asset = u.of_asset;
          in_pool = u.in_pool;
          not_pool = u.not_pool;
          not_vault = u.not_vault;
          tracks = u.tracks;
          tracked_small = u.tracked_small;
          read = read ∙ u.read;
          holds = u.holds;
          solvent = u.solvent;
          quotes =
              available_liquidity-reads j u.pool u.state n n' u.in_pool u.of_asset read ∙ u.quotes;
          covered = omega (arith, u.covered, claim);
        },
        refl,
        refl,
      )

  pub drawn-OutsidePool :
      (pool id : Address) (ids : List Address) (amount : ℕ) (n : Net Storage T)
      (l : Lends s asset vault pools id n)
      → PayingToken s.token
      → id ≢ vault
      → 0 < amount
      → amount ≤ l.quote
      → contains id ids ≡ false
      → OutsidePool pool ids n
      → OutsidePool pool ids (drawn s asset vault pools id amount n)
  unfolding contains
  drawn-OutsidePool pool id [] amount n l token ne gt le new out = tt
  drawn-OutsidePool pool id (j ∷ ids) amount n l token ne gt le new out =
      let (_, _, _, _, _, kept) = drawn-sends s asset vault pools id amount n l token ne gt le in
      (
        λ st e. out.0 st (sym (kept j (ground arith)) ∙ e),
        drawn-OutsidePool pool id ids amount n l token ne gt le (ground arith) out.1,
      )
