-- ===== src/Net/Adapters/Redemption.antt =====
-- A redemption from the vault over Blend adapters whose pools can pay.
use tezoro_yield_aggregator.Base.{
  ℕ, ◌+◌, ◌≤◌, ◌<◌, ◌≡◌, ◌≢◌, refl, sym, ap, ◌∙◌, true, false, some, List, [], ◌∷◌, arith,
}
use tezoro_yield_aggregator.Base.Int.{pos, nonneg-eq-pos, pos_part, ◌+ℤ◌, pos-+ℤ}
use tezoro_yield_aggregator.Base.Map.{Address}
use tezoro_yield_aggregator.Base.Outcome.{ok}
use tezoro_yield_aggregator.Base.Words.{i128_bound}
use tezoro_yield_aggregator.Blend.State.{Storage}
use tezoro_yield_aggregator.Blend.Pool.{Services}
use tezoro_yield_aggregator.Net.{Net, adapter, adapter_chain}
use tezoro_yield_aggregator.Net.Promises.{PayingToken, pay-out}
use tezoro_yield_aggregator.Net.Pools.{LendingPools}
use tezoro_yield_aggregator.Net.Lending.{Lends, quoted_by, drawn, withdraw-drawn, drawn-sends}
use tezoro_yield_aggregator.Net.Adapters.{
  OutsidePool, AllLend, quoted_total, quoted-Lends, drawn-Lends, drawn-OutsidePool,
}
use tezoro_yield_aggregator.Vault.{World}
use tezoro_yield_aggregator.Vault.Store.{
  contains, get_strategies, get_share_balance, get_total_supply, is_initialized,
}
use tezoro_yield_aggregator.Vault.Assets.{convert_to_assets}
use tezoro_yield_aggregator.Vault.Soundness.{IsSound}
use tezoro_yield_aggregator.Vault.Redeem.{redeem}
use tezoro_yield_aggregator.Vault.Redeem.Payment.{PaysOut}
use tezoro_yield_aggregator.Vault.Redeem.Liquidity.{LiquidityLaws, InRange, All, reachable}
use tezoro_yield_aggregator.Vault.Redeem.Liveness.{redeem-returns}

module _ {T : Type 0} (s : Services T) (asset vault : Address) (pools : LendingPools s asset) where
  abbrev pub holding : Net Storage T → ℕ
  holding n = pos_part (s.token.balance asset vault n.outside)

  adapter-apart :
      (id : Address) (ids : List Address) (amount : ℕ) (n : Net Storage T)
      (l : Lends s asset vault pools id n)
      → PayingToken s.token
      → id ≢ vault
      → 0 < amount
      → amount ≤ l.quote
      → contains id ids ≡ false
      → OutsidePool s asset vault pools l.pool ids n
      → AllLend s asset vault pools ids n
      → All
          (λ j.
            quoted_by s asset vault pools j (drawn s asset vault pools id amount n)
            ≡ quoted_by s asset vault pools j n)
          ids
  unfolding contains
  adapter-apart id [] amount n l token ne gt le new out lend = tt
  adapter-apart id (j ∷ ids) amount n l token ne gt le new out lend =
      let (u, away) = lend.2 in
      let n' = drawn s asset vault pools id amount n in
      let (u', _, same) =
        drawn-Lends s asset vault pools id j amount n l u token ne (ground arith)
          (λ e. out.0 u.state u.deployed (rw (← e) u.in_pool)) gt le in
      (
        quoted-Lends s asset vault pools j n' u'
            ∙ same
            ∙ sym (quoted-Lends s asset vault pools j n u),
        adapter-apart id ids amount n l token ne gt le (ground arith) out.1 lend.3,
      )

  adapter-stays :
      (id : Address) (ids : List Address) (amount : ℕ) (n : Net Storage T)
      (l : Lends s asset vault pools id n)
      → PayingToken s.token
      → id ≢ vault
      → 0 < amount
      → amount ≤ l.quote
      → contains id ids ≡ false
      → OutsidePool s asset vault pools l.pool ids n
      → AllLend s asset vault pools ids n
      → AllLend s asset vault pools ids (drawn s asset vault pools id amount n)
  unfolding contains
  adapter-stays id [] amount n l token ne gt le new out lend = tt
  adapter-stays id (j ∷ ids) amount n l token ne gt le new out lend =
      let (u, away) = lend.2 in
      let (u', pool, _) =
        drawn-Lends s asset vault pools id j amount n l u token ne (ground arith)
          (λ e. out.0 u.state u.deployed (rw (← e) u.in_pool)) gt le in
      (
        lend.0,
        lend.1,
        (
          u',
          rw pool (
              drawn-OutsidePool s asset vault pools u.pool id ids amount n l token ne gt le
                (ground arith) away),
        ),
        adapter-stays id ids amount n l token ne gt le (ground arith) out.1 lend.3,
      )

  adapter-paid :
      (id : Address) (amount : ℕ) (n : Net Storage T) (l : Lends s asset vault pools id n)
      → PayingToken s.token
      → id ≢ vault
      → 0 < amount
      → amount ≤ l.quote
      → holding (drawn s asset vault pools id amount n) ≡ holding n + amount
  adapter-paid id amount n l token ne gt le =
      let (x, y, asked, sent, outside, _) =
        drawn-sends s asset vault pools id amount n l token ne gt le in
      let (gained, _) = token.exact.transfer_exact asset id vault (pos amount) x y ne sent in
      let before =
        pools.others l.pool id amount vault n.outside x (λ e. l.not_vault (sym e)) (λ e. ne (sym e))
          asked in
      let known =
        nonneg-eq-pos (s.token.balance asset vault n.outside)
          (token.nonneg asset vault n.outside) in
      let raised : s.token.balance asset vault y ≡ pos (holding n + amount) =
        gained ∙ ap (λ b. b +ℤ pos amount) (before ∙ known) ∙ pos-+ℤ (holding n) amount in
      ap (λ z. pos_part (s.token.balance asset vault z)) outside ∙ ap pos_part raised

  within :
      (id : Address) (amount : ℕ) (n : Net Storage T) (l : Lends s asset vault pools id n)
      → amount ≤ quoted_by s asset vault pools id n
      → amount ≤ l.quote
  within id amount n l le = omega (arith, quoted-Lends s asset vault pools id n l, le)

  adapter-quoted :
      (id : Address) (n : Net Storage T) (l : Lends s asset vault pools id n)
      → (adapter s vault id).available_liquidity n ≡ ok (pos (quoted_by s asset vault pools id n))
  adapter-quoted id n l = ground (arith, l.deployed, l.quotes)

  abbrev adapter_laws :
      PayingToken s.token
      → LiquidityLaws (adapter_chain s vault) asset vault (AllLend s asset vault pools)
  adapter_laws token = record {
    available = quoted_by s asset vault pools;
    after = drawn s asset vault pools;
    held = holding;
    held_exact = λ ids n v.
        nonneg-eq-pos (s.token.balance asset vault n.outside) (token.nonneg asset vault n.outside);
    skips = λ id ids n v. v.3;
    quoted = λ id ids n v. adapter-quoted id n v.2.0;
    honoured = λ id ids amount n v lt le.
        withdraw-drawn s asset vault pools id amount n v.2.0 token v.1 lt
          (within id amount n v.2.0 le);
    paid = λ id ids amount n v lt le.
        adapter-paid id amount n v.2.0 token v.1 lt (within id amount n v.2.0 le);
    apart = λ id ids amount n v lt le.
        adapter-apart id ids amount n v.2.0 token v.1 lt (within id amount n v.2.0 le) v.0 v.2.1
          v.3;
    stays = λ id ids amount n v lt le.
        adapter-stays id ids amount n v.2.0 token v.1 lt (within id amount n v.2.0 le) v.0 v.2.1
          v.3;
  }

  reachable-quoted :
      (ids : List Address) (token : PayingToken s.token) (n : Net Storage T)
      → reachable (adapter_laws token) ids n ≡ quoted_total s asset vault pools ids n
  reachable-quoted [] token n = refl
  reachable-quoted (id ∷ ids) token n = rw (reachable-quoted ids token n) refl

  -- Over adapters in different pools that serve the vault, and whose positions are worth what they
  -- record up to the two units of the margin, a holder's redemption returns, with what the shares
  -- are worth transferred by the token from the vault to the holder, as the last call of another
  -- contract, and the shares taken off the holder and the supply, if the payment is at most what
  -- the vault holds and the adapters quote together: for a sound storage whose amounts are within
  -- `i128`, pools that pay a position as far as they have not lent the asset out, and a token that
  -- keeps no negative balance, moves any covered amount and moves nothing else.
  pub redeem-lent :
      (from : Address) (shares owned supply assets : ℕ) (w : World (Net Storage T))
      → PayingToken s.token
      → AllLend s asset vault pools (get_strategies w.storage) w.chain
      → IsSound w.storage
      → InRange w.storage.tracked_balance
      → w.self ≡ vault
      → w.storage.asset ≡ some asset
      → w.authorized from ≡ true
      → is_initialized w.storage ≡ true
      → get_share_balance w.storage from ≡ pos owned
      → get_total_supply w.storage ≡ pos supply
      → owned < i128_bound
      → supply < i128_bound
      → 0 < shares
      → shares ≤ owned
      → convert_to_assets (adapter_chain s vault) (pos shares) w ≡ ok (pos assets)
      → 0 < assets
      → assets
        ≤ holding w.chain + quoted_total s asset vault pools (get_strategies w.storage) w.chain
      → (w' : World (Net Storage T)) × (redeem (adapter_chain s vault) from (pos shares) w
          ≡ ok (pos assets, w'))
        × PaysOut (adapter_chain s vault) from (pos shares) (pos assets) w w'
  redeem-lent from shares owned supply assets w token lend sound range self a auth init own total
        small small' lt le worth gt enough =
      let ids = get_strategies w.storage in
      redeem-returns (adapter_laws token) from shares owned supply assets w sound range lend self a
        auth init own total small small' lt le worth gt
        (rw (reachable-quoted ids token w.chain) enough)
        (λ n v has. pay-out s.token asset vault from assets n token has)
