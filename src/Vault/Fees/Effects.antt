-- ===== src/Vault/Fees/Effects.antt =====
-- What `collect_fees` writes when it returns.
use tezoro_yield_aggregator.Base.{◌≡◌, true, some, arith}
use tezoro_yield_aggregator.Base.Int.{ℤ, pos, ◌+ℤ◌, ◌≤ℤ◌}
use tezoro_yield_aggregator.Base.Map.{Address, insert, balance}
use tezoro_yield_aggregator.Base.Outcome.{ok}
use tezoro_yield_aggregator.Base.Words
use tezoro_yield_aggregator.Common.{Chain}
use tezoro_yield_aggregator.Vault.State.{World}
use tezoro_yield_aggregator.Vault.Store.{is_initialized, get_total_supply, get_high_water_mark}
use tezoro_yield_aggregator.Vault.Fees.{collect_fees}

module _ {X : Type 0} (h : Chain X) where
  -- The fee shares are minted to one recipient, and the high-water mark is set to some value.
  pub collect_fees-storage :
      (w : World X) {fee_shares : ℤ} {w' : World X}
      → collect_fees h w ≡ ok (fee_shares, w')
      → (recipient : Address) × (w.storage.fee_recipient ≡ some recipient)
        × (w'.storage ≡ record w.storage {
          share_balance =
              insert recipient
                (balance recipient w.storage.share_balance +ℤ fee_shares)
                w.storage.share_balance;
          total_supply = some (get_total_supply w.storage +ℤ fee_shares);
          high_water_mark = some (get_high_water_mark w'.storage);
        })
        × (pos 1 ≤ℤ fee_shares)
  unfolding collect_fees Words.add
  collect_fees-storage w e = ground arith

  pub collect_fees-initialized :
      (w : World X) {fee_shares : ℤ} {w' : World X}
      → collect_fees h w ≡ ok (fee_shares, w')
      → is_initialized w.storage ≡ true
  unfolding collect_fees
  collect_fees-initialized w e = ground arith
