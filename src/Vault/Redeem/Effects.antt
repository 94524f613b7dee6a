-- ===== src/Vault/Redeem/Effects.antt =====
-- What `redeem` writes when it returns.
use tezoro_yield_aggregator.Base.{◌≡◌, true, some, arith}
use tezoro_yield_aggregator.Base.Int.{ℤ, pos, ◌-ℤ◌, ◌≤ℤ◌}
use tezoro_yield_aggregator.Base.Map.{Address, insert, balance, IsNonneg}
use tezoro_yield_aggregator.Base.Outcome.{ok, value_or}
use tezoro_yield_aggregator.Base.Words
use tezoro_yield_aggregator.Common.{Chain}
use tezoro_yield_aggregator.Vault.State.{World}
use tezoro_yield_aggregator.Vault.Store.{is_initialized, get_total_supply, get_share_balance}
use tezoro_yield_aggregator.Vault.Assets.{convert_to_assets, idle_balance}
use tezoro_yield_aggregator.Vault.Redeem.{redeem, burn}
use tezoro_yield_aggregator.Vault.Redeem.Frame.{cover-OnlyPulls}

module _ {X : Type 0} (h : Chain X) where
  -- A redemption of `shares` debits them from the holder and from the supply, and writes nothing
  -- else but tracked balances.
  pub redeem-storage :
      (from : Address) (shares : ℤ) (w : World X) {assets : ℤ} {w' : World X}
      → redeem h from shares w ≡ ok (assets, w')
      → (w'.storage ≡ record w.storage {
        tracked_balance = w'.storage.tracked_balance;
        share_balance =
            insert from (balance from w.storage.share_balance -ℤ shares) w.storage.share_balance;
        total_supply = some (get_total_supply w.storage -ℤ shares);
      })
  unfolding redeem burn Words.sub
  redeem-storage from shares w {assets} e =
      ground (arith, (cover-OnlyPulls h assets (value_or (pos 0) (idle_balance h w))).at w)

  -- It keeps the tracked balances nonnegative.
  pub redeem-tracked-IsNonneg :
      (from : Address) (shares : ℤ) (w : World X) {assets : ℤ} {w' : World X}
      → redeem h from shares w ≡ ok (assets, w')
      → IsNonneg w.storage.tracked_balance
      → IsNonneg w'.storage.tracked_balance
  unfolding redeem burn
  redeem-tracked-IsNonneg from shares w {assets} e n =
      ground (arith, (cover-OnlyPulls h assets (value_or (pos 0) (idle_balance h w))).at w)

  -- The holder has the shares, and they convert to the positive amount that is paid.
  pub redeem-pays :
      (from : Address) (shares : ℤ) (w : World X) {assets : ℤ} {w' : World X}
      → redeem h from shares w ≡ ok (assets, w')
      → (convert_to_assets h shares w ≡ ok assets)
        × (pos 1 ≤ℤ shares)
        × (shares ≤ℤ get_share_balance w.storage from)
        × (pos 1 ≤ℤ assets)
        × (w'.self ≡ w.self)
        × (w'.timestamp ≡ w.timestamp)
  unfolding redeem burn
  redeem-pays from shares w {assets} e =
      ground (arith, (cover-OnlyPulls h assets (value_or (pos 0) (idle_balance h w))).at w)

  pub redeem-initialized :
      (from : Address) (shares : ℤ) (w : World X) {assets : ℤ} {w' : World X}
      → redeem h from shares w ≡ ok (assets, w')
      → is_initialized w.storage ≡ true
  unfolding redeem
  redeem-initialized from shares w e = ground arith

  pub redeem-frame :
      (from : Address) (shares : ℤ) (w : World X) {assets : ℤ} {w' : World X}
      → redeem h from shares w ≡ ok (assets, w')
      → (w'.wasm ≡ w.wasm) × (w'.timestamp ≡ w.timestamp)
  unfolding redeem burn
  redeem-frame from shares w {assets} e =
      ground (arith, (cover-OnlyPulls h assets (value_or (pos 0) (idle_balance h w))).at w)
