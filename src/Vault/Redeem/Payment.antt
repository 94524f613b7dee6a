-- ===== src/Vault/Redeem/Payment.antt =====
-- What `redeem` pays out: after it has covered the amount, it transfers it to the holder, and that
-- is the last call of another contract.
use tezoro_yield_aggregator.Base.{◌≡◌, ◌∙◌, ap, some, arith}
use tezoro_yield_aggregator.Base.Int.{ℤ, pos, ◌-ℤ◌}
use tezoro_yield_aggregator.Base.Map.{Address, balance, lookup-insert}
use tezoro_yield_aggregator.Base.Outcome.{ok, value_or, unwrap_or}
use tezoro_yield_aggregator.Common.{Chain}
use tezoro_yield_aggregator.Vault.State.{Storage, World}
use tezoro_yield_aggregator.Vault.Store.{get_share_balance, get_total_supply}
use tezoro_yield_aggregator.Vault.Assets.{idle_balance}
use tezoro_yield_aggregator.Vault.Redeem.{redeem, burn, cover}
use tezoro_yield_aggregator.Vault.Redeem.Effects.{redeem-storage}
use tezoro_yield_aggregator.Vault.Redeem.Frame.{cover-OnlyPulls}

-- From `w` to `w'` the holder `from` is paid `assets` for `shares`: the vault covers the assets, from
-- its idle funds or its strategies, and the token then transfers exactly the assets from the vault to
-- the holder; the shares are taken off the holder and off the supply, and the tracked balances are
-- those that the covering left.
pub record PaysOut {X : Type 0} (h : Chain X) (from : Address) (shares assets : ℤ) (w w' : World X)
    : Type 0 where
  pub asset : Address
  pub idle : ℤ
  pub covered : World X
  pub of_asset : w.storage.asset ≡ some asset
  pub idle_funds : idle_balance h w ≡ ok idle
  pub covers : cover h assets idle w ≡ ok (tt, covered)
  pub sent : h.token.transfer asset w.self from assets covered.chain ≡ some w'.chain
  pub debited : get_share_balance w'.storage from ≡ get_share_balance w.storage from -ℤ shares
  pub retired : get_total_supply w'.storage ≡ get_total_supply w.storage -ℤ shares
  pub tracked : w'.storage.tracked_balance ≡ covered.storage.tracked_balance

module _ {X : Type 0} (h : Chain X) where
  pub redeem-PaysOut :
      (from : Address) (shares : ℤ) (w : World X) {assets : ℤ} {w' : World X}
      → redeem h from shares w ≡ ok (assets, w')
      → PaysOut h from shares assets w w'
  unfolding redeem burn idle_balance
  redeem-PaysOut from shares w {assets} {w'} e =
      let idle = value_or (pos 0) (idle_balance h w) in
      let left = balance from w.storage.share_balance -ℤ shares in
      let eq = redeem-storage h from shares w e in
      record {
        asset = unwrap_or w.storage.asset 0;
        idle = idle;
        covered = (value_or (tt, w) (cover h assets idle w)).1;
        of_asset = ground arith;
        idle_funds = ground arith;
        covers = ground arith;
        sent = ground (arith, (cover-OnlyPulls h assets idle).at w);
        debited =
            ap (λ (st : Storage). get_share_balance st from) eq
            ∙ ground (arith, lookup-insert from from left w.storage.share_balance);
        retired = ap (λ (st : Storage). get_total_supply st) eq;
        tracked = ground (arith, (cover-OnlyPulls h assets idle).at w);
      }
