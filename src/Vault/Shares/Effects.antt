-- ===== src/Vault/Shares/Effects.antt =====
-- What `transfer` and `deposit` write when they return.
use tezoro_yield_aggregator.Base.{◌≡◌, some, arith}
use tezoro_yield_aggregator.Base.Int.{ℤ, pos, ◌+ℤ◌, ◌≤ℤ◌}
use tezoro_yield_aggregator.Base.Map.{Address, insert, balance}
use tezoro_yield_aggregator.Base.Outcome.{ok}
use tezoro_yield_aggregator.Base.Words
use tezoro_yield_aggregator.Common.{Chain}
use tezoro_yield_aggregator.Vault.State.{World}
use tezoro_yield_aggregator.Vault.Store.{get_total_supply}
use tezoro_yield_aggregator.Vault.Assets.{total_assets, pro_rata}
use tezoro_yield_aggregator.Vault.Shares.{deposit}

module _ {X : Type 0} (h : Chain X) where
  -- A deposit that returns `shares` credits them to the depositor and to the supply, and writes
  -- nothing else to the storage.
  pub deposit-storage :
      (from : Address) (assets : ℤ) (w : World X) {shares : ℤ} {w' : World X}
      → deposit h from assets w ≡ ok (shares, w')
      → (w'.storage ≡ record w.storage {
        share_balance =
            insert from (balance from w.storage.share_balance +ℤ shares) w.storage.share_balance;
        total_supply = some (get_total_supply w.storage +ℤ shares);
      })
  unfolding deposit Words.add
  deposit-storage from assets w e = ground arith

  -- Its arguments and its result are positive, and it moves the assets to the vault.
  pub deposit-moves :
      (from : Address) (assets : ℤ) (w : World X) {shares : ℤ} {w' : World X}
      → deposit h from assets w ≡ ok (shares, w')
      → (asset : Address) × (w.storage.asset ≡ some asset)
        × (h.token.transfer asset from w.self assets w.chain ≡ some w'.chain)
        × (pos 1 ≤ℤ assets)
        × (pos 1 ≤ℤ shares)
        × (w'.self ≡ w.self)
        × (w'.timestamp ≡ w.timestamp)
  unfolding deposit
  deposit-moves from assets w e = ground arith

  -- The shares are those that the assets are worth before the deposit.
  pub deposit-quote :
      (from : Address) (assets : ℤ) (w : World X) {total shares : ℤ} {w' : World X}
      → total_assets h w ≡ ok total
      → deposit h from assets w ≡ ok (shares, w')
      → pro_rata assets (get_total_supply w.storage) total ≡ ok shares
  unfolding deposit
  deposit-quote from assets w t e = ground arith
