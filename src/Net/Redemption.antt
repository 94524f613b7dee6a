-- ===== src/Net/Redemption.antt =====
-- A redemption from the vault over mock strategies that can pay.
use tezoro_yield_aggregator.Base.{
  ℕ, ◌+◌, ◌≤◌, ◌<◌, ◌≡◌, ◌≢◌, refl, ap, ◌∙◌, true, false, some, List, [], ◌∷◌, arith,
}
use tezoro_yield_aggregator.Base.Int.{pos, nonneg-eq-pos, pos_part, ◌+ℤ◌, pos-+ℤ}
use tezoro_yield_aggregator.Base.Map.{Address}
use tezoro_yield_aggregator.Base.Outcome.{ok}
use tezoro_yield_aggregator.Base.Words.{i128_bound}
use tezoro_yield_aggregator.Common.{Token}
use tezoro_yield_aggregator.Mock
use tezoro_yield_aggregator.Mock.{get_balance}
use tezoro_yield_aggregator.Net.{Net, net_chain, net_strategy}
use tezoro_yield_aggregator.Net.Promises.{
  pay-out, PayingToken, Serves, recorded, paid_out, holds, withdraw-paid_out, paid_out-sends,
  paid_out-Serves,
}
use tezoro_yield_aggregator.Vault.{World}
use tezoro_yield_aggregator.Vault.Store.{
  contains, get_strategies, get_share_balance, get_total_supply, is_initialized,
}
use tezoro_yield_aggregator.Vault.Assets.{convert_to_assets}
use tezoro_yield_aggregator.Vault.Soundness.{IsSound}
use tezoro_yield_aggregator.Vault.Redeem.{redeem}
use tezoro_yield_aggregator.Vault.Redeem.Payment.{PaysOut}
use tezoro_yield_aggregator.Vault.Redeem.Liquidity.{LiquidityLaws, InRange, All, reachable}
use tezoro_yield_aggregator.Vault.Redeem.Liveness.{redeem-returns}

module _ {T : Type 0} (t : Token T) (asset vault : Address) where
  -- What the mocks of the list record together.
  abbrev pub recorded_total : List Address → Net Mock.Storage T → ℕ
  recorded_total [] n = 0
  recorded_total (id ∷ ids) n = recorded t asset vault id n + recorded_total ids n

  -- All strategies of the list are different contracts, none of them the vault, that serve it.
  abbrev pub AllServe : List Address → Net Mock.Storage T → Type 0
  AllServe [] n = Unit
  AllServe (id ∷ ids) n =
      (contains id ids ≡ false) × (id ≢ vault) × Serves t asset vault id n × AllServe ids n

  mock-quoted :
      (id : Address) (n : Net Mock.Storage T)
      → Serves t asset vault id n
      → (net_strategy t vault id).available_liquidity n ≡ ok (pos (recorded t asset vault id n))
  unfolding Mock.available_liquidity Mock.balance_of
  mock-quoted id n s =
      ground (arith, s.deployed, nonneg-eq-pos (get_balance s.state) s.recorded_nonneg)

  mock-paid :
      (id : Address) (amount : ℕ) (n : Net Mock.Storage T)
      → PayingToken t
      → id ≢ vault
      → Serves t asset vault id n
      → amount ≤ recorded t asset vault id n
      → holds t asset vault (paid_out t asset vault id amount n) ≡ holds t asset vault n + amount
  mock-paid id amount n pays ne s le =
      let (x, sent, tokens, _) = paid_out-sends t asset vault id amount n pays s le in
      let (gained, _) = pays.exact.transfer_exact asset id vault (pos amount) n.outside x ne sent in
      let same : holds t asset vault (paid_out t asset vault id amount n)
          ≡ pos_part (t.balance asset vault x) =
        ap (λ y. pos_part (t.balance asset vault y)) tokens in
      let k = holds t asset vault n in
      let balance =
        nonneg-eq-pos (t.balance asset vault n.outside) (pays.nonneg asset vault n.outside) in
      let raised : t.balance asset vault x ≡ pos (k + amount) =
        gained ∙ ap (λ b. b +ℤ pos amount) balance ∙ pos-+ℤ k amount in
      same ∙ ap pos_part raised

  mock-apart :
      (id : Address) (ids : List Address) (amount : ℕ) (n : Net Mock.Storage T)
      → PayingToken t
      → contains id ids ≡ false
      → Serves t asset vault id n
      → amount ≤ recorded t asset vault id n
      → All
          (λ j.
            recorded t asset vault j (paid_out t asset vault id amount n)
            ≡ recorded t asset vault j n)
          ids
  unfolding contains
  mock-apart id [] amount n pays new s le = tt
  mock-apart id (j ∷ ids) amount n pays new s le =
      let (_, _, _, mocks) = paid_out-sends t asset vault id amount n pays s le in
      (ground (arith, mocks j), mock-apart id ids amount n pays (ground arith) s le)

  mock-stays :
      (id : Address) (ids : List Address) (amount : ℕ) (n : Net Mock.Storage T)
      → PayingToken t
      → id ≢ vault
      → Serves t asset vault id n
      → amount ≤ recorded t asset vault id n
      → AllServe ids n
      → AllServe ids (paid_out t asset vault id amount n)
  mock-stays id [] amount n pays ne s le serve = tt
  mock-stays id (j ∷ ids) amount n pays ne s le serve =
      let (new, other, u, rest) = serve in
      (
        new,
        other,
        paid_out-Serves t asset vault id j amount n pays s u ne other le,
        mock-stays id ids amount n pays ne s le rest,
      )

  abbrev mock_laws : PayingToken t → LiquidityLaws (net_chain t vault) asset vault AllServe
  mock_laws pays = record {
    available = recorded t asset vault;
    after = paid_out t asset vault;
    held = holds t asset vault;
    held_exact = λ ids n v.
        nonneg-eq-pos (t.balance asset vault n.outside) (pays.nonneg asset vault n.outside);
    skips = λ id ids n v. v.3;
    quoted = λ id ids n v. mock-quoted id n v.2;
    honoured =
        λ id ids amount n v lt le. withdraw-paid_out t asset vault id amount n pays v.2 lt le;
    paid = λ id ids amount n v lt le. mock-paid id amount n pays v.1 v.2 le;
    apart = λ id ids amount n v lt le. mock-apart id ids amount n pays v.0 v.2 le;
    stays = λ id ids amount n v lt le. mock-stays id ids amount n pays v.1 v.2 le v.3;
  }

  reachable-recorded :
      (ids : List Address) (pays : PayingToken t) (n : Net Mock.Storage T)
      → reachable (mock_laws pays) ids n ≡ recorded_total ids n
  reachable-recorded [] pays n = refl
  reachable-recorded (id ∷ ids) pays n = rw (reachable-recorded ids pays n) refl

  -- Over different mock strategies, none of them the vault, that name the vault and its asset and
  -- hold the tokens that they record, a holder's redemption returns, with what the shares are
  -- worth transferred by the token from the vault to the holder, as the last call of another
  -- contract, and the shares taken off the holder and the supply, if the payment is at most what
  -- the vault holds and the strategies record together: for a sound storage whose amounts are
  -- within `i128`, and a token that keeps no negative balance, moves any covered amount and moves
  -- nothing else.
  pub redeem-served :
      (from : Address) (shares owned supply assets : ℕ) (w : World (Net Mock.Storage T))
      → PayingToken t
      → AllServe (get_strategies w.storage) w.chain
      → IsSound w.storage
      → InRange w.storage.tracked_balance
      → w.self ≡ vault
      → w.storage.asset ≡ some asset
      → w.authorized from ≡ true
      → is_initialized w.storage ≡ true
      → get_share_balance w.storage from ≡ pos owned
      → get_total_supply w.storage ≡ pos supply
      → owned < i128_bound
      → supply < i128_bound
      → 0 < shares
      → shares ≤ owned
      → convert_to_assets (net_chain t vault) (pos shares) w ≡ ok (pos assets)
      → 0 < assets
      → assets ≤ holds t asset vault w.chain + recorded_total (get_strategies w.storage) w.chain
      → (w' : World (Net Mock.Storage T)) × (redeem (net_chain t vault) from (pos shares) w
          ≡ ok (pos assets, w'))
        × PaysOut (net_chain t vault) from (pos shares) (pos assets) w w'
  redeem-served from shares owned supply assets w pays serve sound range self a auth init own total
        small small' lt le worth gt enough =
      let ids = get_strategies w.storage in
      redeem-returns (mock_laws pays) from shares owned supply assets w sound range serve self a
        auth init own total small small' lt le worth gt
        (rw (reachable-recorded ids pays w.chain) enough)
        (λ n v has. pay-out t asset vault from assets n pays has)
